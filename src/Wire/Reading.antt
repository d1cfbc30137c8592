-- ===== src/Wire/Reading.antt =====
-- client/seq.go: the result that each record of internal/core/serve.go is read back as.
use ranke_db.Base.{
  ◌≡◌, refl, sym, ap, ◌∙◌, true, false, some, List, [], ◌∷◌, Text, ok, map, ℕ, ◌==◌, ==_iff,
}
use ranke_db.Core.Library.{Ranke}
use ranke_db.Wire.{
  Encoding, result_json, result_cbor, claim_encoded, claim_envelope, claim_id, path_id, report,
  id_value, ids_value, report_value, Codec,
}
use ranke_db.Wire.Records.{
  major_of, major_text, major_array, major_map, major_tag, parse_ids, parse_items, read_json,
  decode_json_record, decode_stored, decode_cbor_record, decode_record,
}
use ranke_db.Wire.JsonSequence.{prints}
use ranke_db.Wire.Laws.{IsFramed, strings, HasMajor, IsMap, IsClaim, IsStored, IsLawful}

module _ {R : Ranke} (C : Codec R) (laws : IsLawful C) where
  parse_ids-map : (ids : List R.ClaimId) → parse_ids C (map R.id_text ids) ≡ ok ids
  unfolding parse_ids
  parse_ids-map [] = refl
  parse_ids-map (id ∷ ids) = rw (laws.parses id) (rw (parse_ids-map ids) refl)

  parse_items-map : (ids : List R.ClaimId) → parse_items C (strings (map R.id_text ids)) ≡ ok ids
  unfolding parse_items
  parse_items-map [] = refl
  parse_items-map (id ∷ ids) = rw (laws.parses id) (rw (parse_items-map ids) refl)

  -- a record is not empty
  decode_json_of :
      (p : Text) → prints p ≡ true → decode_record C result_json p ≡ decode_json_record C p
  unfolding decode_record
  decode_json_of [] h = cc
  decode_json_of (c ∷ p) h = refl

  decode_cbor_of :
      (c : ℕ) (p q : Text) → p ≡ c ∷ q → decode_record C result_cbor p ≡ decode_cbor_record C c p
  unfolding decode_record
  decode_cbor_of c p q e = ap (decode_record C result_cbor) e ∙ ap (decode_cbor_record C c) (sym e)

  decode_cbor_id :
      (id : R.ClaimId) (p : Text)
      → HasMajor C major_text p
      → C.unmarshal_text p ≡ ok (R.id_text id)
      → decode_record C result_cbor p ≡ ok (claim_id id)
  unfolding decode_cbor_record
  decode_cbor_id id p (c, q, e, m) h =
      decode_cbor_of c p q e ∙ rw (m) (rw (h) (rw (laws.parses id) refl))

  decode_cbor_ids :
      (ids : List R.ClaimId) (p : Text)
      → HasMajor C major_array p
      → C.unmarshal_texts p ≡ ok (map R.id_text ids)
      → decode_record C result_cbor p ≡ ok (path_id ids)
  unfolding decode_cbor_record
  decode_cbor_ids ids p (c, q, e, m) h =
      decode_cbor_of c p q e
      ∙ rw ((==_iff (major_of c) major_array).0 m) (rw (h) (rw (parse_ids-map ids) refl))

  decode_cbor_report :
      (r : C.Report) (p : Text)
      → IsMap C major_text p
      → C.unmarshal_report result_cbor p ≡ ok r
      → decode_record C result_cbor p ≡ ok (report r)
  unfolding decode_cbor_record
  decode_cbor_report r p (c, q, e, m, k) h =
      decode_cbor_of c p q e ∙ rw ((==_iff (major_of c) major_map).0 m) (rw (k) (rw (h) refl))

  decode_cbor_claim :
      (k : ℕ) (p : Text)
      → IsMap C k p
      → (k == major_text) ≡ false
      → decode_record C result_cbor p ≡ ok (claim_encoded p)
  unfolding decode_cbor_record
  decode_cbor_claim k p (c, q, e, m, g) h =
      decode_cbor_of c p q e ∙ rw ((==_iff (major_of c) major_map).0 m) (rw (g) (rw (h) refl))

  pub decode_id :
      (enc : Encoding) (id : R.ClaimId) (p : Text)
      → C.marshal enc (id_value (R.id_text id)) ≡ ok p
      → decode_record C enc p ≡ ok (claim_id id)
  unfolding decode_json_record read_json
  decode_id result_json id p h =
      decode_json_of p (laws.framed result_json (id_value (R.id_text id)) p h).first
      ∙ rw (laws.json_id (R.id_text id) p h) (rw (laws.parses id) refl)
  decode_id result_cbor id p h =
      let (m, u) = laws.cbor_id (R.id_text id) p h in decode_cbor_id id p m u

  pub decode_ids :
      (enc : Encoding) (ids : List R.ClaimId) (p : Text)
      → C.marshal enc (ids_value (map R.id_text ids)) ≡ ok p
      → decode_record C enc p ≡ ok (path_id ids)
  unfolding decode_json_record read_json
  decode_ids result_json ids p h =
      decode_json_of p (laws.framed result_json (ids_value (map R.id_text ids)) p h).first
      ∙ rw (laws.json_ids (map R.id_text ids) p h) (rw (parse_items-map ids) refl)
  decode_ids result_cbor ids p h =
      let (m, u) = laws.cbor_ids (map R.id_text ids) p h in decode_cbor_ids ids p m u

  pub decode_report :
      (enc : Encoding) (r : C.Report) (p : Text)
      → C.marshal enc (report_value r) ≡ ok p
      → decode_record C enc p ≡ ok (report r)
  unfolding decode_json_record read_json
  decode_report result_json r p h =
      let (names, u, f) = laws.json_report r p h in
      decode_json_of p (laws.framed result_json (report_value r) p h).first
      ∙ rw (u) (rw (f) (rw (laws.reports result_json r p h) refl))
  decode_report result_cbor r p h =
      decode_cbor_report r p (laws.cbor_report r p h) (laws.reports result_cbor r p h)

  pub decode_claim :
      (enc : Encoding) (p : Text)
      → IsFramed C enc p
      → IsClaim C enc p
      → decode_record C enc p ≡ ok (claim_encoded p)
  unfolding decode_json_record read_json
  decode_claim result_json p f (names, u, h) = decode_json_of p f.first ∙ rw (u) (rw (h) refl)
  decode_claim result_cbor p f (k, m, h) = decode_cbor_claim k p m h

  pub decode_envelope :
      (p : Text) (claim : R.Claim)
      → IsStored C p claim
      → decode_record C result_cbor p ≡ ok (claim_envelope p (some claim))
  unfolding decode_cbor_record decode_stored
  decode_envelope p claim ((c, q, e, m), (id, h, d)) =
      decode_cbor_of c p q e ∙ rw ((==_iff (major_of c) major_tag).0 m) (rw (h) (rw (d) refl))
