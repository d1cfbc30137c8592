-- ===== src/Config/Sections.antt =====
-- config/section.go: a section of the configuration, and the pass that resolves every leaf of one.
use ranke_db.Base.{
  Bool, true, false, not, ◌&&◌, Option, none, some, List, [], ◌∷◌, Text, text_eq, Result, ok, err,
  if◌then◌else◌,
}
use ranke_db.Config.{
  Value, Fields, Elements, string, null, literal, object, array, no_fields, field, no_elements,
  element,
}
use ranke_db.Config.Secrets.{VaultPort, Box, ResolveError, absent, resolve_value}

-- `s.raw[key]`
unfoldable pub find : Text → Fields → Option Value
find key no_fields = none
find key (field k v fs) = if text_eq k key then some v else find key fs

-- `isObject` and `isArray` of what a key holds
abbrev pub is_object : Option Value → Bool
is_object (some (object _)) = true
is_object _ = false

abbrev pub is_array : Option Value → Bool
is_array (some (array _)) = true
is_array _ = false

abbrev pub is_leaf : Option Value → Bool
is_leaf none = false
is_leaf (some v) = not (is_object (some v)) && not (is_array (some v))

-- `HasValue`, `HasSection`, `HasArray`
unfoldable pub has_leaf : Fields → Text → Bool
unfolding find
has_leaf s key = is_leaf (find key s)

unfoldable pub has_section : Fields → Text → Bool
unfolding find
has_section s key = is_object (find key s)

unfoldable pub has_array : Fields → Text → Bool
unfolding find
has_array s key = is_array (find key s)

-- an element of an array as a section, empty where it is not an object
abbrev pub as_section : Value → Fields
as_section (object fs) = fs
as_section _ = no_fields

abbrev pub as_sections : Elements → List Fields
as_sections no_elements = []
as_sections (element v es) = as_section v ∷ as_sections es

-- `GetSection`
unfoldable pub get_section : Fields → Text → Fields
unfolding find
get_section s key = elim (find key s) [ none ↦ no_fields | some v ↦ as_section v ]

-- `GetArray`
unfoldable pub get_sections : Fields → Text → List Fields
unfolding find
get_sections s key = elim (find key s) [ some (array es) ↦ as_sections es | _ ↦ [] ]

-- `Keys`, which the order of the fields gives
unfoldable pub keys : Fields → List Text
keys no_fields = []
keys (field k v fs) = k ∷ keys fs

module _ (V : VaultPort) where
  -- a leaf: a string is expanded, where null is read as the empty string, and any other value is its
  -- JSON text
  unfoldable pub get_leaf : (Value → Text) → Value → Box V → Result (ResolveError V) Text × Box V
  unfolding resolve_value
  get_leaf json_text (string s) b = resolve_value V s b
  get_leaf json_text null b = resolve_value V [] b
  get_leaf json_text v b = (ok (json_text v), b)

  -- `Get`
  unfoldable pub get_value :
      (Value → Text) → Fields → Text → Box V → Result (ResolveError V) Text × Box V
  unfolding find get_leaf
  get_value json_text s key b = elim (find key s) [
    | none ↦ (err absent, b)
    | some v ↦ get_leaf json_text v b
  ]

  abbrev pub Checked : Type 0
  Checked = Option (ResolveError V) × Box V

  -- `if err := …; err != nil { return err }`
  abbrev pub and_then : Checked → (Box V → Checked) → Checked
  and_then (none, b) f = f b
  and_then (some e, b) f = (some e, b)

  -- the error alone
  abbrev pub discarded : Result (ResolveError V) Text × Box V → Checked
  discarded (ok v, b) = (none, b)
  discarded (err e, b) = (some e, b)

  -- `resolveSection`, by the kind of what each key holds
  unfoldable mutual
    pub resolve_fields : Fields → Box V → Checked
    resolve_fields no_fields b = (none, b)
    resolve_fields (field k v fs) b = and_then (resolve_one v b) (resolve_fields fs)

    pub resolve_one : Value → Box V → Checked
    resolve_one (string s) b = discarded (resolve_value V s b)
    resolve_one null b = discarded (resolve_value V [] b)
    resolve_one (literal t) b = (none, b)
    resolve_one (object fs) b = resolve_fields fs b
    resolve_one (array es) b = resolve_elements es b

    pub resolve_elements : Elements → Box V → Checked
    resolve_elements no_elements b = (none, b)
    resolve_elements (element (object fs) es) b =
        and_then (resolve_fields fs b) (resolve_elements es)
    resolve_elements (element v es) b = resolve_elements es b
