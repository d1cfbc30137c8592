-- ===== src/Access/Grant.antt =====
-- internal/core/access/access.go: rights, grants, `ParseGrant`, `String` and `Allows`.
pub mod Letters
pub mod Legal
pub mod RoundTrip
use Prim.Native.Nat.{bit_and, bit_or}
use ranke_db.Base.{
  ℕ, ◌%◌, Bool, false, not, ◌&&◌, ◌||◌, Option, none, some, List, [], ◌∷◌, ◌++◌, Text, text,
  text_eq, has_prefix, fields, all, Result, ok, err, ◌>>=◌, ◌==◌, leb, if◌then◌else◌,
}
use ranke_db.Access.Glob.{match_branch}

-- a right is a byte
abbrev pub contribute_right : ℕ
contribute_right = b'C'

abbrev pub read_right : ℕ
read_right = b'R'

abbrev pub update_right : ℕ
update_right = b'U'

abbrev pub delete_right : ℕ
delete_right = b'D'

abbrev pub universe : Text
universe = text "$universe"

abbrev pub archive : Text
archive = text "$archive"

abbrev pub sequencer : Text
sequencer = text "$sequencer"

abbrev pub branches : Text
branches = text "$branches"

-- the map of the reserved names
unfoldable pub is_reserved : Text → Bool
is_reserved s = text_eq s universe || text_eq s archive || text_eq s sequencer || text_eq s branches

-- `bit`: the bit of a right, none for a byte that is no right
unfoldable pub bit : ℕ → Option ℕ
bit r =
    if r == contribute_right
    then some 1
    else if r == read_right
    then some 2
    else if r == update_right
    then some 4
    else if r == delete_right
    then some 8
    else none

pub record Grant : Type 0 where
  pub rights : ℕ  -- a bitmask, uint8
  pub glob : Text

pub data GrantError : Type 0 where
  not_two_fields unknown_right unknown_reserved only_read leading_underscore bad_charset :
      GrantError

-- the loop over the letters: `Right(ch)` keeps the low byte of the rune
unfoldable pub add_letters : ℕ → Text → Result GrantError ℕ
add_letters rs [] = ok rs
add_letters rs (ch ∷ letters) = elim (bit (ch % 256)) [
  | none ↦ err unknown_right
  | some b ↦ add_letters (bit_or rs b) letters
]

abbrev pub glob_char : ℕ → Bool
glob_char c =
    (leb b'a' c && leb c b'z') || (leb b'0' c && leb c b'9') || c == b'_' || c == b'*' || c == b'?'

-- the regular expression `branchGlob`
unfoldable pub branch_glob : Text → Bool
branch_glob [] = false
branch_glob (c ∷ s) = glob_char c && all glob_char s

-- the tests of `ParseGrant` on the glob, the rights being known
unfoldable pub check_glob : ℕ → Text → Result GrantError Grant
check_glob rs glob =
    if has_prefix glob (text "$")
    then if not (is_reserved glob)
      then err unknown_reserved
      else if text_eq glob universe && not (rs == 2)
      then err only_read
      else ok (record { rights = rs; glob = glob })
    else if has_prefix glob (text "_")
    then err leading_underscore
    else if not (branch_glob glob)
    then err bad_charset
    else ok (record { rights = rs; glob = glob })

-- `ParseGrant`, given the fields of the spec
abbrev pub parse_fields : List Text → Result GrantError Grant
parse_fields (letters ∷ glob ∷ []) = do rs ← add_letters 0 letters; check_glob rs glob
parse_fields _ = err not_two_fields

unfoldable pub parse_grant : Text → Result GrantError Grant
parse_grant spec = parse_fields (fields spec)

-- whether a set holds the right of a bit
abbrev pub holds : ℕ → ℕ → Bool
holds rs b = not (bit_and rs b == 0)

abbrev pub letter_if : Bool → ℕ → Text → Text
letter_if b c s = if b then c ∷ s else s

-- the letters of a set, in CRUD order
unfoldable pub letters_of : ℕ → Text
letters_of rs = letter_if (holds rs 1) contribute_right (
    letter_if (holds rs 2) read_right
      (letter_if (holds rs 4) update_right (letter_if (holds rs 8) delete_right [])))

-- `Grant.String`
unfoldable pub print_grant : Grant → Text
print_grant g = letters_of g.rights ++ (b' ' ∷ g.glob)

-- `Grant.Allows`
unfoldable pub allows : Grant → ℕ → Text → Bool
allows g right branch = elim (bit right) [
  | none ↦ false
  | some b ↦ if holds g.rights b then match_branch g.glob branch else false
]
