-- ===== src/Wire/Records.antt =====
-- client/seq.go and client/read.go: a record read back as the result it carries, by the shape of its
-- JSON value or by the major type of its CBOR item.
use ranke_db.Base.{
  ℕ, ◌/◌, ◌%◌, Bool, ◌&&◌, ◌||◌, Option, none, some, List, [], ◌∷◌, Text, text, text_eq, any, drop,
  Result, ok, err, ◌>>=◌, ltb, ◌==◌, if◌then◌else◌,
}
use ranke_db.Errors.{Fault}
use ranke_db.Core.Library.{Ranke}
use ranke_db.Wire.{
  Encoding, result_json, result_cbor, Json, string, array, object, scalar, Items, no_items, item,
  QueryResult, claim_encoded, claim_envelope, claim_id, path_id, report, Codec,
}
use ranke_db.Wire.Split.{ReadError, unknown_framing, failure, split_body}

-- an error of the library, as it is
abbrev pub passed_on : {A : Type 0} → Result Fault A → Result ReadError A
passed_on (ok a) = ok a
passed_on (err e) = err (failure e)

-- an error of a decoder, wrapped as `ErrUnknownFraming`
abbrev pub wrapped : {A : Type 0} → Result Fault A → Result ReadError A
wrapped (ok a) = ok a
wrapped (err e) = err unknown_framing

-- the major type of a CBOR item with this first byte
abbrev pub major_of : ℕ → ℕ
major_of c = c / 32

abbrev pub major_text : ℕ
major_text = 3

abbrev pub major_array : ℕ
major_array = 4

abbrev pub major_map : ℕ
major_map = 5

abbrev pub major_tag : ℕ
major_tag = 6

-- the bytes of a map's head, by the low bits of the first
abbrev pub head_bytes : ℕ → Option ℕ
head_bytes info =
    if ltb info 24 || info == 31
    then some 1
    else if info == 24
    then some 2
    else if info == 25
    then some 3
    else if info == 26
    then some 5
    else if info == 27
    then some 9
    else none

abbrev pub first_major : Text → Option ℕ
first_major [] = none
first_major (c ∷ s) = some (major_of c)

-- `firstMapKeyMajor` of a record that begins with `c`
unfoldable pub first_map_key_major : ℕ → Text → Option ℕ
first_map_key_major c raw = elim (head_bytes (c % 32)) [
  | none ↦ none
  | some header ↦ first_major (drop header raw)
]

abbrev pub has_member : Text → List Text → Bool
has_member name names = any (text_eq name) names

-- what tells a serialized claim from a report
abbrev pub is_claim_object : List Text → Bool
is_claim_object names = has_member (text "type") names && has_member (text "created_at") names

module _ {R : Ranke} (C : Codec R) where
  abbrev pub Found : Type 0
  Found = Result ReadError (QueryResult R C.Report)

  -- the loops over the ids of a route
  unfoldable pub parse_ids : List Text → Result ReadError (List R.ClaimId)
  parse_ids [] = ok []
  parse_ids (name ∷ names) = do
    id ← passed_on (C.parse_id name)
    ids ← parse_ids names
    ok (id ∷ ids)

  unfoldable pub parse_items : Items → Result ReadError (List R.ClaimId)
  parse_items no_items = ok []
  parse_items (item (string s) rest) = do
    id ← passed_on (C.parse_id s)
    ids ← parse_items rest
    ok (id ∷ ids)
  parse_items (item _ rest) = err unknown_framing

  abbrev pub read_report : Encoding → Text → Found
  read_report enc raw = do r ← wrapped (C.unmarshal_report enc raw); ok (report r)

  -- the switch of `decodeJSONRecord`
  unfoldable pub read_json : Text → Json → Found
  unfolding parse_items
  read_json raw (string s) = do id ← passed_on (C.parse_id s); ok (claim_id id)
  read_json raw (array items) = do ids ← parse_items items; ok (path_id ids)
  read_json raw (object names) =
      if is_claim_object names then ok (claim_encoded raw) else read_report result_json raw
  read_json raw scalar = err unknown_framing

  -- `decodeJSONRecord`
  unfoldable pub decode_json_record : Text → Found
  unfolding read_json
  decode_json_record raw = do value ← wrapped (C.unmarshal_json raw); read_json raw value

  -- `decodeStored`
  unfoldable pub decode_stored : Text → Result ReadError R.Claim
  decode_stored raw = do id ← passed_on (C.hash_content raw); passed_on (C.decode_claim id raw)

  -- the case of a map in `decodeCBORRecord`, given the major type of the first key
  abbrev pub read_map : Text → Option ℕ → Found
  read_map raw none = err unknown_framing
  read_map raw (some key) =
      if key == major_text then read_report result_cbor raw else ok (claim_encoded raw)

  -- `decodeCBORRecord` of a record that begins with `c`
  unfoldable pub decode_cbor_record : ℕ → Text → Found
  unfolding first_map_key_major decode_stored parse_ids
  decode_cbor_record c raw =
      if major_of c == major_text
      then (do s ← wrapped (C.unmarshal_text raw); id ← passed_on (C.parse_id s); ok (claim_id id))
      else if major_of c == major_array
      then (do names ← wrapped (C.unmarshal_texts raw); ids ← parse_ids names; ok (path_id ids))
      else if major_of c == major_map
      then read_map raw (first_map_key_major c raw)
      else if major_of c == major_tag
      then (do claim ← decode_stored raw; ok (claim_envelope raw (some claim)))
      else err unknown_framing

  -- `decodeRecord`
  unfoldable pub decode_record : Encoding → Text → Found
  unfolding decode_json_record decode_cbor_record
  decode_record enc [] = err unknown_framing
  decode_record result_json raw = decode_json_record raw
  decode_record result_cbor (c ∷ raw) = decode_cbor_record c (c ∷ raw)

  -- the loop of `Query`
  unfoldable pub decode_all :
      Encoding → List Text → Result ReadError (List (QueryResult R C.Report))
  unfolding decode_record
  decode_all enc [] = ok []
  decode_all enc (raw ∷ records) = do
    result ← decode_record enc raw
    rest ← decode_all enc records
    ok (result ∷ rest)

  -- `Query` of a response that is not a refusal: its media type, its bytes and how reading them ends
  unfoldable pub read_query :
      Text → Text → Option Fault → Result ReadError (List (QueryResult R C.Report))
  unfolding decode_all
  read_query header s f = do split ← split_body C header s f; decode_all split.1 split.0

  -- the loop of `QueryClaims`
  unfoldable pub stored_claims :
      List (QueryResult R C.Report) → Result ReadError (List (Option R.Claim))
  stored_claims [] = ok []
  stored_claims (claim_envelope raw claim ∷ rs) = do claims ← stored_claims rs; ok (claim ∷ claims)
  stored_claims (_ ∷ rs) = err unknown_framing
