-- ===== src/Storage/Tests.antt =====
-- Sections at concrete inputs.
use ranke_db.Base.{
  ℕ, ◌*◌, ◌^◌, ◌%◌, ◌≤◌, ◌≡◌, ◌↔◌, refl, false, some, List, [], ◌∷◌, ◌++◌, Text, text, text_eq,
  Result, ok, arith, cut_suffix, is_space, ◌==◌,
}
use ranke_db.Base.Decimal.{decimal, value_from}
use ranke_db.Base.Dict.{Dict, lookup}
use ranke_db.Base.Keys.{count}
use ranke_db.Storage.{
  Unresolved, Section, Layer, Capabilities, names, suffix_from, distinct, has_value, get, get_array,
  type_of, layer_of, layers_of, descriptors, describe, check_layer,
}
use ranke_db.Storage.Sizes.{
  to_lower, trim_left, trim_space, parse_uint, find_unit, parse_trimmed, parse_size,
}
use ranke_db.Storage.Sizes.Units.{tb, parse_size-unit}
use ranke_db.Storage.Names.{suffixed}
use ranke_db.Storage.Roles.{IsHonoured, check_layer_iff}

parse_size-unit_example :
    parse_size (text "16777216" ++ text "TB") ≡ some (16777216 * 2 ^ 40 % 2 ^ 64)
unfolding to_lower value_from
parse_size-unit_example =
    parse_size-unit (text "16777216") (text "TB") tb
      (record { digits = refl; nonempty = refl; fits = omega arith }) refl

wraps_to_uncapped : parse_size (text "16777216tb") ≡ some 0
unfolding parse_size parse_trimmed parse_uint find_unit trim_space trim_left to_lower value_from
    cut_suffix is_space text_eq
wraps_to_uncapped = refl

bare_bytes : parse_size (text " 4096 b ") ≡ some 4096
unfolding parse_size parse_trimmed parse_uint find_unit trim_space trim_left to_lower value_from
    cut_suffix is_space text_eq
bare_bytes = refl

abbrev named : Text → Layer
named name = record { name = name; kind = text "mem" }

abbrev twice : List Layer
twice = named (text "a") ∷ named (text "a") ∷ named (text "b") ∷ []

suffixed_twice : names (distinct twice) ≡ text "a-0" ∷ text "a-1" ∷ text "b" ∷ []
unfolding distinct suffix_from count decimal text_eq
suffixed_twice = refl

-- a configured name that a suffix makes again
collides :
    names (distinct (named (text "a") ∷ named (text "a") ∷ named (text "a-1") ∷ []))
    ≡ text "a-0" ∷ text "a-1" ∷ text "a-1" ∷ []
unfolding distinct suffix_from count decimal text_eq
collides = refl

short_ne_suffixed :
    (a : ℕ) (m : Text) (j : ℕ) → (a == 45) ≡ false → text_eq (a ∷ []) (suffixed m j) ≡ false
unfolding text_eq
short_ne_suffixed a [] j h = ground (arith, h)
short_ne_suffixed a (c ∷ []) j h = ground arith
short_ne_suffixed a (c ∷ d ∷ m) j h = ground arith

twice_is_free :
    (m : Text) (j : ℕ) → 2 ≤ count m (names twice) → count (suffixed m j) (names twice) ≡ 0
unfolding count
twice_is_free m j h =
    ground (arith, short_ne_suffixed b'a' m j refl, short_ne_suffixed b'b' m j refl)

abbrev cache : Dict (Result Unresolved Text)
cache = (text "mode", ok (text "lazy")) ∷ (text "maxContentSize", ok (text "4kb")) ∷ []

abbrev lazy_caps : Capabilities
lazy_caps = record { tier = text "lazy"; content_cap = 4096 }

check_layer_iff_example :
    (check_layer (text "eager" ∷ text "lazy" ∷ []) cache lazy_caps ≡ ok tt)
    ↔ IsHonoured (text "eager" ∷ text "lazy" ∷ []) cache lazy_caps
check_layer_iff_example = check_layer_iff (text "eager" ∷ text "lazy" ∷ []) cache lazy_caps

abbrev stacked : Section
stacked = record {
  values = (text "type", ok (text "stack")) ∷ [];
  arrays =
      (
        text "layers",
        record { values = (text "type", ok (text "mem")) ∷ [] }
            ∷ record {
              values = (text "type", ok (text "fs")) ∷ (text "name", ok (text "mem")) ∷ [];
            }
            ∷ [],
      )
      ∷ [];
}

described :
    describe stacked
    ≡ ok (
        record { name = text "mem-0"; kind = text "mem" }
        ∷ record { name = text "mem-1"; kind = text "fs" }
        ∷ [])
unfolding describe type_of layers_of layer_of descriptors get_array has_value get distinct
    suffix_from lookup count decimal text_eq
described = refl
