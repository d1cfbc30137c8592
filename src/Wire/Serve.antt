-- ===== src/Wire/Serve.antt =====
-- internal/core/serve.go: the framing of a query's results and what every kind of stream writes.
use ranke_db.Base.{
  Option, none, some, List, [], ◌∷◌, Text, text_eq, Result, ok, err, map, if◌then◌else◌,
}
use ranke_db.Errors.{Fault, map_lib_error}
use ranke_db.Core.Library.{Ranke}
use ranke_db.Core.Values.{Stream, query_stream, bytes_stream, blob_stream}
use ranke_db.Wire.{
  media_json, media_json_seq, media_cbor, media_cbor_seq, media_blob, record_separator, Encoding,
  result_json, result_cbor, QueryResult, claim_encoded, path_encoded, claim_envelope, path_envelope,
  claim_id, path_id, report, native, Value, id_value, ids_value, report_value, Codec,
}
use ranke_db.Wire.Writer.{Writer, Outcome, chain}

-- `sequenceFraming`
pub record Framing : Type 0 where
  pub media_type : Text
  pub prefix : Text
  pub suffix : Text

-- `framingFor`
unfoldable pub framing_for : Encoding → Framing
framing_for result_cbor = record { media_type = media_cbor_seq; prefix = []; suffix = [] }
framing_for result_json = record {
  media_type = media_json_seq;
  prefix = record_separator ∷ [];
  suffix = 10 ∷ [];
}

-- the encoder that `writeValue` takes
abbrev pub encoder : Framing → Encoding
encoder f = if text_eq f.media_type media_cbor_seq then result_cbor else result_json

-- an error that no sentinel stands in
abbrev pub unclassified : Fault
unclassified = record { chain = [] }

-- `ContentType` of a stream
unfoldable pub content_type : {R : Ranke} → Codec R → Stream R → Text
unfolding framing_for
content_type C (query_stream results q) = (framing_for (C.encoding q)).media_type
content_type C (bytes_stream payload) = media_cbor
content_type C (blob_stream content) = media_blob
content_type C _ = media_json

module _ (W : Writer) where
  open W use {State}

  -- the loops that write one part after the other, an empty one not at all
  unfoldable pub write_parts : List Text → State → Outcome W
  write_parts [] s = ((0, none), s)
  write_parts ([] ∷ ps) s = write_parts ps s
  write_parts ((c ∷ p) ∷ ps) s = chain W (W.write s (c ∷ p)) (write_parts ps)

  -- `writeRecord`
  unfoldable pub write_record : Framing → Text → State → Outcome W
  unfolding write_parts
  write_record f payload = write_parts (f.prefix ∷ payload ∷ f.suffix ∷ [])

  -- the loop of `writeResult` over the claims of a path
  unfoldable pub write_path : Framing → List Text → State → Outcome W
  unfolding write_record
  write_path f [] s = ((0, none), s)
  write_path f (claim ∷ claims) s = chain W (write_record f claim s) (write_path f claims)

  -- the end of `writeValue`, given what the encoder returns
  abbrev pub write_marshalled : Framing → Result Fault Text → State → Outcome W
  write_marshalled f (err e) s = ((0, some e), s)
  write_marshalled f (ok payload) s = write_record f payload s

  -- `WriteTo` of a `jsonStream`, given what `json.Marshal` returns
  abbrev pub write_json : Result Fault Text → State → Outcome W
  write_json (err e) s = ((0, some e), s)
  write_json (ok payload) s = W.write s payload

module _ {R : Ranke} (C : Codec R) (W : Writer) where
  open W use {State}

  -- `writeValue`
  unfoldable pub write_value : Framing → Value R C.Report → State → Outcome W
  write_value f v = write_marshalled W f (C.marshal (encoder f) v)

  -- `writeResult`; a report carries no payload field either
  unfoldable pub write_result : Framing → QueryResult R C.Report → State → Outcome W
  unfolding write_record write_path write_value
  write_result f (claim_encoded claim) s = write_record W f claim s
  write_result f (path_encoded claims) s = write_path W f claims s
  write_result f (claim_envelope claim _) s = write_record W f claim s
  write_result f (path_envelope claims) s = write_path W f claims s
  write_result f (claim_id id) s = write_value f (id_value (R.id_text id)) s
  write_result f (path_id ids) s = write_value f (ids_value (map R.id_text ids)) s
  write_result f (report r) s = ((0, some unclassified), s)
  write_result f native s = ((0, some unclassified), s)

  -- the loop of `queryStream.WriteTo`, which steps over the report
  unfoldable pub write_results : Framing → List (QueryResult R C.Report) → State → Outcome W
  unfolding write_result
  write_results f [] s = ((0, none), s)
  write_results f (report _ ∷ rs) s = write_results f rs s
  write_results f (r ∷ rs) s = chain W (write_result f r s) (write_results f rs)

  -- what follows the loop, given `Err` and `Report` of the results
  unfoldable pub write_end : Framing → Option Fault → Option C.Report → State → Outcome W
  unfolding write_value map_lib_error
  write_end f (some e) r s = ((0, some (map_lib_error e)), s)
  write_end f none none s = ((0, none), s)
  write_end f none (some r) s = write_value f (report_value r) s

  -- `WriteTo` of a stream
  unfoldable pub write_to : Stream R → State → Outcome W
  unfolding write_results write_end write_parts framing_for
  write_to (query_stream results q) s =
      let f = framing_for (C.encoding q) in
      chain W (write_results f (C.results results) s)
        (write_end f (C.failure results) (C.final_report results))
  write_to (bytes_stream payload) s = W.write s (C.payload_bytes payload)
  write_to (blob_stream content) s =
      chain W (write_parts W (C.content_bytes content) s)
        (λ s'. ((0, C.content_failure content), s'))
  write_to stream s = write_json W (C.marshal_stream stream) s
