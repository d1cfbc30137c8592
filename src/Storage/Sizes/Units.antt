-- ===== src/Storage/Sizes/Units.antt =====
-- How a size with a unit is read.
use ranke_db.Base.{
  all-append, all-reverse, ℕ, ◌*◌, ◌^◌, ◌%◌, ◌<◌, ◌≡◌, refl, ap, ◌∙◌, Bool, true, false, not, ◌&&◌,
  &&-split, none, some, [], ◌∷◌, ◌++◌, map, all, Text, text, text_eq, cut_suffix, is_space, ◌==◌,
  if◌then◌else◌, arith,
}
use mathlib.Core.List.{reverse, reverse-reverse}
use ranke_db.Base.Decimal.{value_from}
use ranke_db.Storage.Sizes.{
  to_lower, trim_left, trim_space, is_numeral, is_nil, parse_uint, units, find_unit, parse_trimmed,
  parse_size,
}

-- a numeral of 64 bits: decimal digits, one at least
pub record IsNumeral (s : Text) : Type 0 where
  pub digits : all is_numeral s ≡ true
  pub nonempty : is_nil s ≡ false
  pub fits : value_from 0 s < 2 ^ 64

pub data SizeUnit : Type 0 where
  kb mb gb tb : SizeUnit

abbrev pub suffix_of : SizeUnit → Text
suffix_of kb = text "kb"
suffix_of mb = text "mb"
suffix_of gb = text "gb"
suffix_of tb = text "tb"

abbrev pub multiple_of : SizeUnit → ℕ
multiple_of kb = 2 ^ 10
multiple_of mb = 2 ^ 20
multiple_of gb = 2 ^ 30
multiple_of tb = 2 ^ 40

text_eq_nil : (s : Text) (x y : ℕ) → text_eq (s ++ (x ∷ y ∷ [])) [] ≡ false
unfolding text_eq
text_eq_nil [] x y = refl
text_eq_nil (_ ∷ _) x y = refl

cut_suffix_pair :
    (s : Text) (x y p q : ℕ)
    → cut_suffix (s ++ (x ∷ y ∷ [])) (p ∷ q ∷ []) ≡ (if x == p && y == q then some s else none)
unfolding cut_suffix text_eq
cut_suffix_pair [] x y p q = ground arith
cut_suffix_pair (a ∷ []) x y p q = ground (arith, cut_suffix_pair [] x y p q)
cut_suffix_pair (a ∷ b ∷ s) x y p q =
    ground (arith, text_eq_nil s x y, cut_suffix_pair (b ∷ s) x y p q)

find_unit-suffix :
    (s : Text) (u : SizeUnit) → find_unit units (s ++ suffix_of u) ≡ some (s, multiple_of u)
unfolding find_unit
find_unit-suffix s kb = ground (
  arith,
  cut_suffix_pair s b'k' b'b' b't' b'b',
  cut_suffix_pair s b'k' b'b' b'g' b'b',
  cut_suffix_pair s b'k' b'b' b'm' b'b',
  cut_suffix_pair s b'k' b'b' b'k' b'b',
)
find_unit-suffix s mb = ground (
  arith,
  cut_suffix_pair s b'm' b'b' b't' b'b',
  cut_suffix_pair s b'm' b'b' b'g' b'b',
  cut_suffix_pair s b'm' b'b' b'm' b'b',
  cut_suffix_pair s b'm' b'b' b'k' b'b',
)
find_unit-suffix s gb = ground (
  arith,
  cut_suffix_pair s b'g' b'b' b't' b'b',
  cut_suffix_pair s b'g' b'b' b'g' b'b',
  cut_suffix_pair s b'g' b'b' b'm' b'b',
  cut_suffix_pair s b'g' b'b' b'k' b'b',
)
find_unit-suffix s tb = ground (
  arith,
  cut_suffix_pair s b't' b'b' b't' b'b',
  cut_suffix_pair s b't' b'b' b'g' b'b',
  cut_suffix_pair s b't' b'b' b'm' b'b',
  cut_suffix_pair s b't' b'b' b'k' b'b',
)

to_lower-numeral : (s : Text) → all is_numeral s ≡ true → map to_lower s ≡ s
unfolding to_lower
to_lower-numeral [] h = refl
to_lower-numeral (c ∷ s) h =
    let both = &&-split (is_numeral c) (all is_numeral s) h in
    ground (arith, both.0, to_lower-numeral s both.1)

not_blank-numeral : (s : Text) → all is_numeral s ≡ true → all (λ c. not (is_space c)) s ≡ true
unfolding is_space
not_blank-numeral [] h = refl
not_blank-numeral (c ∷ s) h =
    let both = &&-split (is_numeral c) (all is_numeral s) h in
    ground (arith, both.0, not_blank-numeral s both.1)

abbrev not_blank : ℕ → Bool
not_blank c = not (is_space c)

trim_left-id : (s : Text) → all not_blank s ≡ true → trim_left s ≡ s
unfolding trim_left
trim_left-id [] h = refl
trim_left-id (c ∷ s) h =
    let both = &&-split (not_blank c) (all not_blank s) h in ground (arith, both.0)

trim_space-id : (s : Text) → all not_blank s ≡ true → trim_space s ≡ s
unfolding trim_space
trim_space-id s h =
    rw (trim_left-id s h)
      (rw (trim_left-id (reverse s) (all-reverse not_blank s ∙ h)) (reverse-reverse s))

map_lower-append : (s t : Text) → map to_lower (s ++ t) ≡ map to_lower s ++ map to_lower t
map_lower-append [] t = refl
map_lower-append (c ∷ s) t = ap (λ r. to_lower c ∷ r) (map_lower-append s t)

not_blank-suffix : (u : SizeUnit) → all not_blank (suffix_of u) ≡ true
unfolding is_space
not_blank-suffix kb = refl
not_blank-suffix mb = refl
not_blank-suffix gb = refl
not_blank-suffix tb = refl

is_nil-append : (s : Text) (u : SizeUnit) → is_nil (s ++ suffix_of u) ≡ false
is_nil-append [] kb = refl
is_nil-append [] mb = refl
is_nil-append [] gb = refl
is_nil-append [] tb = refl
is_nil-append (c ∷ s) u = refl

parse_uint-numeral : (s : Text) → IsNumeral s → parse_uint s ≡ some (value_from 0 s)
unfolding parse_uint
parse_uint-numeral s h = ground (arith, h.digits, h.nonempty, h.fits)

-- A decimal numeral of 64 bits followed by kb, mb, gb or tb, in letters of either case, is read as
-- the numeral times the unit's power of 1024, reduced modulo 2 ^ 64: a product that does not fit is
-- not refused.
pub parse_size-unit :
    (s p : Text) (u : SizeUnit)
    → IsNumeral s
    → map to_lower p ≡ suffix_of u
    → parse_size (s ++ p) ≡ some (value_from 0 s * multiple_of u % 2 ^ 64)
unfolding parse_size parse_trimmed
parse_size-unit s p u h e =
    let blank : all not_blank (s ++ suffix_of u) ≡ true =
      all-append not_blank s (suffix_of u)
      ∙ ground (arith, not_blank-numeral s h.digits, not_blank-suffix u) in
    let lower : map to_lower (s ++ p) ≡ s ++ suffix_of u =
      map_lower-append s p ∙ rw (to_lower-numeral s h.digits) (rw (e) refl) in
    rw (lower) (
      rw (trim_space-id (s ++ suffix_of u) blank) (
        rw (is_nil-append s u) (
          rw (find_unit-suffix s u, parse_trimmed)
            (rw (trim_space-id s (not_blank-numeral s h.digits))
              (rw (parse_uint-numeral s h) refl)))))
