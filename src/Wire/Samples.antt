-- ===== src/Wire/Samples.antt =====
-- An encoder of one id, one claim and the empty report, with the decoders that read them back.
use ranke_db.Base.{
  ℕ, Option, none, some, [], ◌∷◌, Text, text, text_eq, Result, ok, err, if◌then◌else◌, ◌==◌,
}
use ranke_db.Errors.{Fault}
use ranke_db.Core.Samples.{merge_count}
use ranke_db.Wire.{
  Encoding, result_json, result_cbor, Json, string, object, Step, ended, read_item, failed,
  claim_encoded, claim_id, report, Value, id_value, ids_value, report_value, Codec,
}
use ranke_db.Wire.Serve.{unclassified}

abbrev pub five : Text
five = 5 ∷ []

abbrev pub json_five : Text
json_five = text "\"5\""

abbrev pub json_claim : Text
json_claim = text "{\"type\":0,\"created_at\":1}"

abbrev pub cbor_five : Text
cbor_five = 0x61 ∷ 5 ∷ []

abbrev pub cbor_report : Text
cbor_report = 0xa1 ∷ 0x61 ∷ 0 ∷ []

abbrev pub encode : Encoding → Value merge_count Unit → Result Fault Text
encode result_json (id_value t) = if text_eq t five then ok json_five else err unclassified
encode result_json (ids_value ts) = err unclassified
encode result_json (report_value r) = ok (text "{}")
encode result_cbor (id_value t) = if text_eq t five then ok cbor_five else err unclassified
encode result_cbor (ids_value ts) = err unclassified
encode result_cbor (report_value r) = ok cbor_report

abbrev pub decode_json : Text → Result Fault Json
decode_json p =
    if text_eq p json_five
    then ok (string five)
    else if text_eq p (text "{}")
    then ok (object [])
    else if text_eq p json_claim
    then ok (object (text "type" ∷ text "created_at" ∷ []))
    else err unclassified

abbrev pub one_item : Text → Option Fault → Step
one_item [] none = ended
one_item [] (some e) = failed e
one_item (a ∷ []) f = failed unclassified
one_item (a ∷ b ∷ []) f = if a == 0x61 then read_item (a ∷ b ∷ []) [] else failed unclassified
one_item (a ∷ b ∷ c ∷ t) f =
    if a == 0x61 then read_item (a ∷ b ∷ []) (c ∷ t) else read_item (a ∷ b ∷ c ∷ []) t

abbrev pub parse_one : Text → Result Fault ℕ
parse_one (id ∷ []) = ok id
parse_one _ = err unclassified

abbrev pub codec : Codec merge_count
codec = record {
  Report = Unit;
  results = λ n. claim_id 5 ∷ claim_encoded json_claim ∷ claim_id n ∷ report tt ∷ [];
  failure = λ n. none;
  final_report = λ n. some tt;
  encoding = λ q. result_json;
  payload_bytes = λ p. p ∷ [];
  content_bytes = λ c. (c ∷ []) ∷ [];
  content_failure = λ c. none;
  marshal = encode;
  marshal_stream = λ s. ok (text "{}");
  unmarshal_json = decode_json;
  media_type_of = λ header. some header;
  next_item = one_item;
  unmarshal_text = λ p. ok five;
  unmarshal_texts = λ p. err unclassified;
  unmarshal_report = λ enc p. ok tt;
  parse_id = parse_one;
  hash_content = λ p. ok 0;
  decode_claim = λ id p. ok id;
}
