-- ===== src/Storage/Sizes.antt =====
-- adapters/storage/storage.go: `parseSize`.
pub mod Units
use ranke_db.Base.{
  ℕ, ◌+◌, ◌-◌, ◌*◌, ◌^◌, ◌%◌, Bool, true, false, ◌&&◌, Option, none, some, List, [], ◌∷◌, ◌++◌, map,
  all, Text, text, cut_suffix, is_space, leb, ltb, ◌==◌, if◌then◌else◌,
}
use ranke_db.Base.Decimal.{value_from}
use mathlib.Core.List.{reverse}

-- unicode.ToLower, as far as it makes letters of the units; the Kelvin sign becomes a `k`
unfoldable pub to_lower : ℕ → ℕ
to_lower c = if leb b'A' c && leb c b'Z' then c + 32 else if c == 0x212a then b'k' else c

unfoldable pub trim_left : Text → Text
trim_left [] = []
trim_left (c ∷ s) = let rest = trim_left s in if is_space c then rest else c ∷ s

-- strings.TrimSpace
unfoldable pub trim_space : Text → Text
trim_space s = reverse (trim_left (reverse (trim_left s)))

abbrev pub is_numeral : ℕ → Bool
is_numeral c = leb b'0' c && leb c b'9'

abbrev pub is_nil : Text → Bool
is_nil [] = true
is_nil (_ ∷ _) = false

-- strconv.ParseUint with base 10 and 64 bits
unfoldable pub parse_uint : Text → Option ℕ
parse_uint s =
    if is_nil s
    then none
    else if all is_numeral s && ltb (value_from 0 s) (2 ^ 64)
    then some (value_from 0 s)
    else none

-- the units with their multiples; no text ends in two of them, so Go's map order does not matter
abbrev pub units : List (Text × ℕ)
units = (text "tb", 2 ^ 40) ∷ (text "gb", 2 ^ 30) ∷ (text "mb", 2 ^ 20) ∷ (text "kb", 2 ^ 10) ∷ []

-- the loop over the units: what stands before the unit, and its multiple
unfoldable pub find_unit : List (Text × ℕ) → Text → Option (Text × ℕ)
find_unit [] s = none
find_unit ((suffix, mult) ∷ rest) s =
    let others = find_unit rest s in
    elim (cut_suffix s suffix) [ none ↦ others | some front ↦ some (front, mult) ]

-- strings.TrimSuffix
abbrev pub trim_suffix : Text → Text → Text
trim_suffix s suffix = elim (cut_suffix s suffix) [ none ↦ s | some front ↦ front ]

-- `parseSize` of a text that is trimmed and in lower case
unfoldable pub parse_trimmed : Text → Option ℕ
parse_trimmed s = elim (find_unit units s) [
  | some (front, mult) ↦ elim (parse_uint (trim_space front)) [
    | none ↦ none
    | some n ↦ some (n * mult % 2 ^ 64)
  ]
  | none ↦ parse_uint (trim_space (trim_suffix s (text "b")))
]

-- `parseSize`, its multiplication wrapped as that of uint64
unfoldable pub parse_size : Text → Option ℕ
parse_size s = let t = trim_space (map to_lower s) in if is_nil t then some 0 else parse_trimmed t
