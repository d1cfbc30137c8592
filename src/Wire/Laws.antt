-- ===== src/Wire/Laws.antt =====
-- What the client of client/seq.go relies on of the encoders: each record is read back as the value
-- that it was written from, and its shape tells which kind of result it is.
use ranke_db.Base.{◌≡◌, true, false, none, some, List, [], ◌∷◌, Text, ok, ◌==◌, ℕ}
use ranke_db.Core.Library.{Ranke}
use ranke_db.Wire.{
  Encoding, result_json, result_cbor, string, array, object, Items, no_items, item, ended,
  QueryResult, claim_encoded, claim_envelope, claim_id, path_id, report, Value, id_value, ids_value,
  report_value, Codec,
}
use ranke_db.Wire.Serve.{framing_for}
use ranke_db.Wire.Records.{
  major_of, major_text, major_array, major_map, major_tag, first_map_key_major, is_claim_object,
}
use ranke_db.Wire.JsonSequence.{IsRecord}
use ranke_db.Wire.CborSequence.{IsItem}

-- a list of strings in JSON
abbrev pub strings : List Text → Items
strings [] = no_items
strings (s ∷ ss) = item (string s) (strings ss)

module _ {R : Ranke} (C : Codec R) where
  -- a record that the framing of an encoding keeps apart from its neighbours
  abbrev pub IsFramed : Encoding → Text → Type 0
  IsFramed result_json p = IsRecord p
  IsFramed result_cbor p = IsItem C p

  -- begins with a byte of this major type
  abbrev pub HasMajor : ℕ → Text → Type 0
  HasMajor k p = (c : ℕ) × (q : Text) × (p ≡ c ∷ q) × ((major_of c == k) ≡ true)

  -- a CBOR map with this major type of the first key
  abbrev pub IsMap : ℕ → Text → Type 0
  IsMap k p =
      (c : ℕ) × (q : Text) × (p ≡ c ∷ q)
      × ((major_of c == major_map) ≡ true)
      × (first_map_key_major c p ≡ some k)

  -- a serialized claim: an object with `type` and `created_at`, or a map whose keys are not texts
  abbrev pub IsClaim : Encoding → Text → Type 0
  IsClaim result_json p =
      (names : List Text) × (C.unmarshal_json p ≡ ok (object names))
      × (is_claim_object names ≡ true)
  IsClaim result_cbor p = (k : ℕ) × IsMap k p × ((k == major_text) ≡ false)

  -- the stored record of a claim, which a tag begins
  abbrev pub IsStored : Text → R.Claim → Type 0
  IsStored p claim =
      HasMajor major_tag p
      × ((id : R.ClaimId) × (C.hash_content p ≡ ok id) × (C.decode_claim id p ≡ ok claim))

  -- a result that the client can tell from the others by its record
  unfoldable pub IsReadable : Encoding → QueryResult R C.Report → Type 0
  IsReadable enc (claim_encoded p) = IsFramed enc p × IsClaim enc p
  IsReadable result_cbor (claim_envelope p (some claim)) = IsItem C p × IsStored p claim
  IsReadable enc (claim_id id) = Unit
  IsReadable enc (path_id ids) = Unit
  IsReadable enc (report r) = Unit
  IsReadable enc _ = ⊥

  -- the documented behaviour of `json`, `cbor`, `mime` and of ranke-go's ids
  pub record IsLawful : Type 0 where
    pub media :
        (enc : Encoding)
        → C.media_type_of (framing_for enc).media_type ≡ some (framing_for enc).media_type
    pub ends : C.next_item [] none ≡ ended
    pub parses : (id : R.ClaimId) → C.parse_id (R.id_text id) ≡ ok id
    pub framed :
        (enc : Encoding) (v : Value R C.Report) (p : Text) → C.marshal enc v ≡ ok p → IsFramed enc p
    pub json_id :
        (t p : Text)
        → C.marshal result_json (id_value t) ≡ ok p
        → C.unmarshal_json p ≡ ok (string t)
    pub json_ids :
        (ts : List Text) (p : Text)
        → C.marshal result_json (ids_value ts) ≡ ok p
        → C.unmarshal_json p ≡ ok (array (strings ts))
    pub json_report :
        (r : C.Report) (p : Text)
        → C.marshal result_json (report_value r) ≡ ok p
        → (names : List Text) × (C.unmarshal_json p ≡ ok (object names))
          × (is_claim_object names ≡ false)
    pub cbor_id :
        (t p : Text)
        → C.marshal result_cbor (id_value t) ≡ ok p
        → HasMajor major_text p × (C.unmarshal_text p ≡ ok t)
    pub cbor_ids :
        (ts : List Text) (p : Text)
        → C.marshal result_cbor (ids_value ts) ≡ ok p
        → HasMajor major_array p × (C.unmarshal_texts p ≡ ok ts)
    pub cbor_report :
        (r : C.Report) (p : Text)
        → C.marshal result_cbor (report_value r) ≡ ok p
        → IsMap major_text p
    pub reports :
        (enc : Encoding) (r : C.Report) (p : Text)
        → C.marshal enc (report_value r) ≡ ok p
        → C.unmarshal_report enc p ≡ ok r
