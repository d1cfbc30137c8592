-- ===== src/Wire/Tests.antt =====
-- Responses at concrete inputs.
use ranke_db.Base.{
  ◌≡◌, refl, sym, ap, ◌∙◌, Bool, true, false, none, some, [], ◌∷◌, ◌++◌, Text, text, text_eq,
  text_eq_iff, Result, ok, err, if◌then◌else◌, arith,
}
use mathlib.Core.Path.{subst}
use ranke_db.Errors.{Fault}
use ranke_db.Core.Values.{query_stream}
use ranke_db.Core.Samples.{merge_count}
use ranke_db.Wire.{
  Encoding, result_json, result_cbor, string, read_item, claim_encoded, claim_id, report, Value,
  id_value, ids_value, report_value, media_json_seq,
}
use ranke_db.Wire.Writer.{buffer}
use ranke_db.Wire.Serve.{unclassified, framing_for, content_type, write_to}
use ranke_db.Wire.Body.{body_of, results_body, result_body, WritesBody, write_to-WritesBody}
use ranke_db.Wire.Records.{first_map_key_major, read_query}
use ranke_db.Wire.Split.{split_cbor_seq}
use ranke_db.Wire.JsonSequence.{IsRecord}
use ranke_db.Wire.CborSequence.{IsItem, Consumes, Rounds, split_cbor_seq-Rounds}
use ranke_db.Wire.Laws.{IsLawful, IsFramed, IsReadable}
use ranke_db.Wire.RoundTrip.{read_query-body_of}
use ranke_db.Wire.Samples.{
  five, json_five, json_claim, cbor_five, cbor_report, encode, decode_json, one_item, codec,
}

json_five-IsRecord : IsRecord json_five
json_five-IsRecord = record { unseparated = refl; first = refl; last = refl }

cbor_five-IsItem : IsItem codec cbor_five
cbor_five-IsItem = record {
  whole = λ t. elim t as (λ t. one_item (cbor_five ++ t) none ≡ read_item cbor_five t) [
    | [] ↦ refl
    | c ∷ t ↦ refl
  ];
  nonempty = omega arith;
}

chosen :
    (b : Bool) (q p : Text) → (if b then ok q else err unclassified) ≡ ok p → (b ≡ true) × (q ≡ p)
chosen true q p h = (refl, cc)
chosen false q p h = cc

is_ok : (p q : Text) → ◌≡◌ {A = Result Fault Text} (ok p) (ok q) → p ≡ q
is_ok p q h = cc

encode-IsFramed :
    (enc : Encoding) (v : Value merge_count Unit) (p : Text)
    → encode enc v ≡ ok p
    → IsFramed codec enc p
encode-IsFramed result_json (id_value t) p h =
    subst IsRecord (chosen (text_eq t five) json_five p h).1 json_five-IsRecord
encode-IsFramed result_json (ids_value ts) p h = cc
encode-IsFramed result_json (report_value r) p h =
    subst IsRecord (is_ok (text "{}") p h)
      (record { unseparated = refl; first = refl; last = refl })
encode-IsFramed result_cbor (id_value t) p h =
    subst (IsItem codec) (chosen (text_eq t five) cbor_five p h).1 cbor_five-IsItem
encode-IsFramed result_cbor (ids_value ts) p h = cc
encode-IsFramed result_cbor (report_value r) p h =
    subst (IsItem codec) (is_ok cbor_report p h)
      (record { whole = λ t. refl; nonempty = omega arith })

read_json_five :
    (t p : Text) → encode result_json (id_value t) ≡ ok p → decode_json p ≡ ok (string t)
unfolding text_eq
read_json_five t p h =
    let (e, q) = chosen (text_eq t five) json_five p h in
    ap decode_json (sym q) ∙ ap (λ u. ok (string u)) (sym ((text_eq_iff t five).0 e))

codec-IsLawful : IsLawful codec
unfolding text_eq first_map_key_major
codec-IsLawful = record {
  media = λ enc. refl;
  ends = refl;
  parses = λ id. refl;
  framed = encode-IsFramed;
  json_id = read_json_five;
  json_ids = λ ts p h. cc;
  json_report = λ r p h. ([], ap decode_json (sym (is_ok (text "{}") p h)), refl);
  cbor_id = λ t p h.
      let (e, q) = chosen (text_eq t five) cbor_five p h in
      ((0x61, 5 ∷ [], sym q, refl), ap ok (sym ((text_eq_iff t five).0 e)));
  cbor_ids = λ ts p h. cc;
  cbor_report = λ r p h.
      let q = is_ok cbor_report p h in
      (0xa1, 0x61 ∷ 0 ∷ [], sym q, refl, ap (first_map_key_major 0xa1) (sym q));
  reports = λ enc r p h. refl;
}

abbrev response : Text
response =
    0x1e
    ∷ (json_five
        ++ (10
            ∷ 0x1e
            ∷ (json_claim ++ (10 ∷ 0x1e ∷ (json_five ++ (10 ∷ 0x1e ∷ text "{}" ++ (10 ∷ [])))))))

read_query-body_of_example :
    read_query codec media_json_seq response none
    ≡ ok (claim_id 5 ∷ claim_encoded json_claim ∷ claim_id 5 ∷ report tt ∷ [])
unfolding body_of results_body result_body framing_for text_eq IsReadable content_type
read_query-body_of_example =
    read_query-body_of codec codec-IsLawful 5 0 response
      (
        tt,
        (
          (record { unseparated = refl; first = refl; last = refl }, (_, refl, refl)),
          (tt, (tt, tt)),
        ),
      )
      refl

write_to-WritesBody_example :
    WritesBody buffer []
      (body_of codec (query_stream 5 0))
      (write_to codec buffer (query_stream 5 0) [])
write_to-WritesBody_example = write_to-WritesBody codec buffer (query_stream 5 0) []

codec-Consumes : Consumes codec
codec-Consumes [] none p t h = cc
codec-Consumes [] (some e) p t h = cc
codec-Consumes (a ∷ []) f p t h = cc
codec-Consumes (a ∷ b ∷ []) f p t h = ground arith
codec-Consumes (a ∷ b ∷ c ∷ s) f p t h = ground arith

split_cbor_seq-Rounds_example :
    Rounds codec none (cbor_five ++ cbor_five) (split_cbor_seq codec (cbor_five ++ cbor_five) none)
split_cbor_seq-Rounds_example =
    split_cbor_seq-Rounds codec codec-Consumes (cbor_five ++ cbor_five) none
