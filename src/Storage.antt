-- ===== src/Storage.antt =====
-- adapters/storage/storage.go: the layers that a storage section declares. A section is the part of
-- config/scope/section.go that the package calls: the leaf values by key, each with what resolving
-- it gives, and the arrays by key.
pub mod Sizes
pub mod Names
pub mod Bookmarks
pub mod Roles
mod Tests
use ranke_db.Base.{
  ℕ, suc, ◌+◌, Bool, true, false, not, ◌&&◌, Option, none, some, List, [], ◌∷◌, ◌++◌, map, any,
  Text, text, text_eq, Result, ok, err, ◌>>=◌, leb, ltb, ◌==◌, if◌then◌else◌,
}
use ranke_db.Base.Decimal.{decimal}
use ranke_db.Base.Dict.{Dict, lookup}
use ranke_db.Base.Keys.{count}
use Sizes.{parse_size}

-- why resolving a value failed
pub data Unresolved : Type 0 where
  absent unreachable : Unresolved

-- a section as `Describe` and `checkLayer` see it; its arrays are sections of the same kind
pub record Leaf : Type 0 where
  pub values : Dict (Result Unresolved Text)

pub record Section : Type 0 where
  pub values : Dict (Result Unresolved Text)
  pub arrays : Dict (List Leaf)

-- `HasValue`
unfoldable pub has_value : Dict (Result Unresolved Text) → Text → Bool
has_value values key = elim (lookup key values) [ none ↦ false | some _ ↦ true ]

-- `Get`
unfoldable pub get : Dict (Result Unresolved Text) → Text → Result Unresolved Text
get values key = elim (lookup key values) [ none ↦ err absent | some v ↦ v ]

-- `GetArray`
unfoldable pub get_array : Dict (List Leaf) → Text → List Leaf
get_array arrays key = elim (lookup key arrays) [ none ↦ [] | some ls ↦ ls ]

-- `typeOf`
unfoldable pub type_of : Dict (Result Unresolved Text) → Result Unresolved Text
type_of values = if has_value values (text "type") then get values (text "type") else ok []

pub record Layer : Type 0 where
  pub name : Text
  pub kind : Text

abbrev pub names : List Layer → List Text
names ls = map (λ l. l.name) ls

-- the second loop of `distinct`, from the position `i`; `seen` was counted before it
unfoldable pub suffix_from : List Text → ℕ → List Layer → List Layer
suffix_from seen i [] = []
suffix_from seen i (l ∷ ls) =
    let rest = suffix_from seen (i + 1) ls in
    (if ltb 1 (count l.name seen) then record l { name = l.name ++ (text "-" ++ decimal i) } else l)
    ∷ rest

-- `distinct`
unfoldable pub distinct : List Layer → List Layer
distinct ls = suffix_from (names ls) 0 ls

-- the body of the loop of `Describe`
unfoldable pub layer_of : Leaf → Result Unresolved Layer
layer_of d = do
  kind ← type_of d.values
  name ← (if has_value d.values (text "name") then get d.values (text "name") else ok kind)
  ok (record { name = name; kind = kind })

unfoldable pub layers_of : List Leaf → Result Unresolved (List Layer)
layers_of [] = ok []
layers_of (d ∷ ds) = do l ← layer_of d; ls ← layers_of ds; ok (l ∷ ls)

-- the switch of `Describe`
unfoldable pub descriptors : Section → Text → List Leaf
descriptors sec kind =
    if text_eq kind (text "stack")
    then get_array sec.arrays (text "layers")
    else if text_eq kind (text "partition")
    then get_array sec.arrays (text "shards")
    else record { values = sec.values } ∷ []

-- `Describe`
unfoldable pub describe : Section → Result Unresolved (List Layer)
describe sec = do kind ← type_of sec.values; ls ← layers_of (descriptors sec kind); ok (distinct ls)

-- what a built universe reports
pub record Capabilities : Type 0 where
  pub tier : Text
  pub content_cap : ℕ

pub data RoleError : Type 0 where
  mode_unresolved size_unresolved fill_unresolved : Unresolved → RoleError
  unknown_mode : Text → RoleError
  other_tier : Text → Text → RoleError
  bad_size : Text → RoleError
  other_cap : ℕ → ℕ → RoleError
  read_fill : RoleError

-- `checkLayer`: the check of "mode", given the library's tiers
unfoldable pub check_mode :
    List Text → Dict (Result Unresolved Text) → Capabilities → Result RoleError (Unit {0})
check_mode tiers values caps =
    if has_value values (text "mode")
    then elim (get values (text "mode")) [
      | err e ↦ err (mode_unresolved e)
      | ok mode ↦
          if not (any (text_eq mode) tiers)
          then err (unknown_mode mode)
          else if text_eq mode caps.tier
          then ok tt
          else err (other_tier mode caps.tier)
    ]
    else ok tt

-- `checkLayer`: the check of "maxContentSize"
unfoldable pub check_size :
    Dict (Result Unresolved Text) → Capabilities → Result RoleError (Unit {0})
check_size values caps =
    if has_value values (text "maxContentSize")
    then elim (get values (text "maxContentSize")) [
      | err e ↦ err (size_unresolved e)
      | ok raw ↦ elim (parse_size raw) [
        | none ↦ err (bad_size raw)
        | some size ↦
            if size == caps.content_cap then ok tt else err (other_cap size caps.content_cap)
      ]
    ]
    else ok tt

-- `checkLayer`: the check of "noReadFill"
unfoldable pub check_fill : Dict (Result Unresolved Text) → Result RoleError (Unit {0})
check_fill values =
    if has_value values (text "noReadFill")
    then elim (get values (text "noReadFill")) [
      | err e ↦ err (fill_unresolved e)
      | ok v ↦ if text_eq v (text "true") then err read_fill else ok tt
    ]
    else ok tt

-- `checkLayer`
unfoldable pub check_layer :
    List Text → Dict (Result Unresolved Text) → Capabilities → Result RoleError (Unit {0})
check_layer tiers values caps = do
  _ ← check_mode tiers values caps
  _ ← check_size values caps
  check_fill values
