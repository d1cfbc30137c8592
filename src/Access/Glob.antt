-- ===== src/Access/Glob.antt =====
-- internal/core/access/access.go: `matchBranch`, and of Go's `path.Match` the patterns that a grant
-- can hold: literals, `*` and `?`. Neither wildcard reaches over a `/`. The brackets and escapes of
-- `path.Match` are left out, since no parsed grant holds their characters.
pub mod Matching
use ranke_db.Base.{
  ℕ, Bool, true, false, not, ◌&&◌, ◌||◌, [], ◌∷◌, Text, text, text_eq, has_prefix, ◌==◌,
  if◌then◌else◌,
}

abbrev pub star : ℕ
star = b'*'

abbrev pub any_one : ℕ
any_one = b'?'

-- what a pattern's character `p` that is no `*` does with a character `c`
abbrev pub fits : ℕ → ℕ → Bool
fits p c = if p == any_one then not (c == b'/') else p == c

-- path.Match
unfoldable pub match_glob : Text → Text → Bool
match_glob [] [] = true
match_glob [] (c ∷ s) = false
match_glob (p ∷ ps) [] = p == star && match_glob ps []
match_glob (p ∷ ps) (c ∷ s) =
    let skip = match_glob ps (c ∷ s) in
    let stay = match_glob (p ∷ ps) s in
    let rest = match_glob ps s in
    if p == star then skip || (not (c == b'/') && stay) else fits p c && rest

-- `matchBranch`: a reserved branch needs the literal grant
unfoldable pub match_branch : Text → Text → Bool
match_branch glob branch =
    if has_prefix branch (text "$") then text_eq glob branch else match_glob glob branch
