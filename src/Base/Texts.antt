-- ===== src/Base/Texts.antt =====
-- A Go string as the list of its code points, with the functions of `strings` that the source calls.
use Prim.Native.Nat.{ℕ, ◌+◌}
use Prim.Native.Char.{code}
use Prim.Native.String.{String}
use mathlib.Core.Path.{◌≡◌, refl, ap₂}
use mathlib.Core.Logic.{◌↔◌}
use mathlib.Core.Bool.{Bool, true, false, ◌&&◌, ◌||◌}
use mathlib.Core.Option.{Option, none, some}
use mathlib.Core.List.{List, [], ◌∷◌}
use native.Mathlib.Omega.{arith}
use ranke_db.Base.Tests.{leb, ◌==◌, ==_iff, if◌then◌else◌, &&-split}

abbrev pub Text : Type 0
Text = List ℕ

-- the text that a literal writes
abbrev pub text : String → Text
text String.[] = []
text (String.◌∷◌ c s) = code c ∷ text s

-- `==` on strings
unfoldable pub text_eq : Text → Text → Bool
text_eq [] [] = true
text_eq [] (_ ∷ _) = false
text_eq (_ ∷ _) [] = false
text_eq (a ∷ s) (b ∷ t) = a == b && text_eq s t

pub text_eq_refl : (s : Text) → text_eq s s ≡ true
unfolding text_eq
text_eq_refl [] = refl
text_eq_refl (a ∷ s) = ground (arith, text_eq_refl s)

eq_of_text_eq : (s t : Text) → text_eq s t ≡ true → s ≡ t
unfolding text_eq
eq_of_text_eq [] [] h = refl
eq_of_text_eq [] (_ ∷ _) h = cc
eq_of_text_eq (_ ∷ _) [] h = cc
eq_of_text_eq (a ∷ s) (b ∷ t) h =
    let both = &&-split (a == b) (text_eq s t) h in
    ap₂ ◌∷◌ ((==_iff a b).0 both.0) (eq_of_text_eq s t both.1)

text_eq_of_eq : (s t : Text) → s ≡ t → text_eq s t ≡ true
text_eq_of_eq s t e = rw e (text_eq_refl t)

pub text_eq_iff : (s t : Text) → (text_eq s t ≡ true) ↔ (s ≡ t)
text_eq_iff s t = (eq_of_text_eq s t, text_eq_of_eq s t)

-- strings.HasPrefix
unfoldable pub has_prefix : Text → Text → Bool
has_prefix s [] = true
has_prefix [] (_ ∷ _) = false
has_prefix (a ∷ s) (b ∷ p) = a == b && has_prefix s p

-- strings.HasSuffix and strings.TrimSuffix: the text before the suffix, if it ends so
unfoldable pub cut_suffix : Text → Text → Option Text
unfolding text_eq
cut_suffix [] p = if text_eq [] p then some [] else none
cut_suffix (a ∷ s) p =
    let rest = cut_suffix s p in
    if text_eq (a ∷ s) p then some [] else elim rest [ none ↦ none | some r ↦ some (a ∷ r) ]

-- unicode.IsSpace
unfoldable pub is_space : ℕ → Bool
is_space c =
    c == 9
    || c == 10
    || c == 11
    || c == 12
    || c == 13
    || c == 32
    || c == 0x85
    || c == 0xa0
    || c == 0x1680
    || c == 0x2000
    || c == 0x2001
    || c == 0x2002
    || c == 0x2003
    || c == 0x2004
    || c == 0x2005
    || c == 0x2006
    || c == 0x2007
    || c == 0x2008
    || c == 0x2009
    || c == 0x200a
    || c == 0x2028
    || c == 0x2029
    || c == 0x202f
    || c == 0x205f
    || c == 0x3000

-- a code point put before the first field of a list of fields
abbrev pub glue : ℕ → List Text → List Text
glue c [] = (c ∷ []) ∷ []
glue c (f ∷ fs) = (c ∷ f) ∷ fs

-- The fields of `s`, the first one empty if `s` begins with a space or is empty.
unfoldable pub field_runs : Text → List Text
unfolding is_space
field_runs [] = [] ∷ []
field_runs (c ∷ s) = let rest = field_runs s in if is_space c then [] ∷ rest else glue c rest

abbrev pub drop_empty : List Text → List Text
drop_empty [] = []
drop_empty ([] ∷ fs) = drop_empty fs
drop_empty ((c ∷ f) ∷ fs) = (c ∷ f) ∷ drop_empty fs

-- strings.Fields
unfoldable pub fields : Text → List Text
unfolding field_runs
fields s = drop_empty (field_runs s)

-- strings.Split and bytes.Split by one character
unfoldable pub split_on : ℕ → Text → List Text
split_on sep [] = [] ∷ []
split_on sep (c ∷ s) =
    let rest = split_on sep s in elim (c == sep) [ true ↦ [] ∷ rest | false ↦ glue c rest ]

-- strings.TrimRight by one character
unfoldable pub trim_right : ℕ → Text → Text
unfolding text_eq
trim_right c [] = []
trim_right c (a ∷ s) =
    let rest = trim_right c s in if a == c && text_eq rest [] then [] else a ∷ rest

-- strings.CutPrefix
unfoldable pub cut_prefix : Text → Text → Option Text
cut_prefix s [] = some s
cut_prefix [] (_ ∷ _) = none
cut_prefix (a ∷ s) (b ∷ p) = if a == b then cut_prefix s p else none

-- What stands before the first such character and after it; none if there is none.
unfoldable pub cut_at : ℕ → Text → Option (Text × Text)
cut_at sep [] = none
cut_at sep (c ∷ s) =
    let rest = cut_at sep s in
    if c == sep then some ([], s) else elim rest [ none ↦ none | some (a, b) ↦ some (c ∷ a, b) ]

-- strings.ToLower on the letters of ASCII
unfoldable pub lower : Text → Text
lower [] = []
lower (c ∷ s) = (if leb b'A' c && leb c b'Z' then c + 32 else c) ∷ lower s
