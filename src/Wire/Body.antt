-- ===== src/Wire/Body.antt =====
-- The bytes that a stream of internal/core/serve.go stands for, and that `WriteTo` writes them.
use ranke_db.Base.{inl, inr, Option, none, some, List, [], ◌∷◌, ◌++◌, Text, Result, ok, err, map}
use mathlib.Core.Path.{subst}
use mathlib.Core.List.{append-nil}
use ranke_db.Errors.{Fault, map_lib_error}
use ranke_db.Core.Library.{Ranke}
use ranke_db.Core.Values.{Stream, query_stream, bytes_stream, blob_stream}
use ranke_db.Wire.{
  QueryResult, claim_encoded, path_encoded, claim_envelope, path_envelope, claim_id, path_id,
  report, native, Value, id_value, ids_value, report_value, Codec,
}
use ranke_db.Wire.Writer.{
  Writer, Outcome, chain, Writes, write-Writes, nothing-Writes, chain-Writes,
}
use ranke_db.Wire.Serve.{
  Framing, framing_for, encoder, unclassified, write_parts, write_record, write_path, write_value,
  write_marshalled, write_json, write_result, write_results, write_end, write_to,
}

-- bytes, and the error that ends them
abbrev pub Body : Type 0
Body = Text × Option Fault

abbrev pub then_body : Body → Body → Body
then_body (t, none) (u, f) = (t ++ u, f)
then_body (t, some e) b = (t, some e)

-- a record between its delimiters
abbrev pub record_text : Framing → Text → Text
record_text f payload = f.prefix ++ (payload ++ f.suffix)

abbrev pub path_text : Framing → List Text → Text
path_text f [] = []
path_text f (claim ∷ claims) = record_text f claim ++ path_text f claims

abbrev pub parts_text : List Text → Text
parts_text [] = []
parts_text (p ∷ ps) = p ++ parts_text ps

abbrev pub marshalled : Framing → Result Fault Text → Body
marshalled f (ok payload) = (record_text f payload, none)
marshalled f (err e) = ([], some e)

abbrev pub json_body : Result Fault Text → Body
json_body (ok payload) = (payload, none)
json_body (err e) = ([], some e)

module _ {R : Ranke} (C : Codec R) where
  abbrev pub value_body : Framing → Value R C.Report → Body
  value_body f v = marshalled f (C.marshal (encoder f) v)

  -- a claim is one record, a path as many as it has claims
  unfoldable pub result_body : Framing → QueryResult R C.Report → Body
  result_body f (claim_encoded claim) = (record_text f claim, none)
  result_body f (path_encoded claims) = (path_text f claims, none)
  result_body f (claim_envelope claim _) = (record_text f claim, none)
  result_body f (path_envelope claims) = (path_text f claims, none)
  result_body f (claim_id id) = value_body f (id_value (R.id_text id))
  result_body f (path_id ids) = value_body f (ids_value (map R.id_text ids))
  result_body f (report r) = ([], some unclassified)
  result_body f native = ([], some unclassified)

  unfoldable pub results_body : Framing → List (QueryResult R C.Report) → Body
  unfolding result_body
  results_body f [] = ([], none)
  results_body f (report _ ∷ rs) = results_body f rs
  results_body f (r ∷ rs) = then_body (result_body f r) (results_body f rs)

  abbrev pub report_body : Framing → Option C.Report → Body
  report_body f none = ([], none)
  report_body f (some r) = value_body f (report_value r)

  abbrev pub end_body : Framing → Option Fault → Option C.Report → Body
  end_body f (some e) r = ([], some (map_lib_error e))
  end_body f none r = report_body f r

  unfoldable pub body_of : Stream R → Body
  unfolding results_body
  body_of (query_stream results q) =
      let f = framing_for (C.encoding q) in
      then_body (results_body f (C.results results))
        (end_body f (C.failure results) (C.final_report results))
  body_of (bytes_stream payload) = (C.payload_bytes payload, none)
  body_of (blob_stream content) = (parts_text (C.content_bytes content), C.content_failure content)
  body_of stream = json_body (C.marshal_stream stream)

module _ (W : Writer) where
  open W use {State}

  -- a routine that means to write a body
  abbrev pub WritesBody : State → Body → Outcome W → Type 0
  WritesBody s b o = Writes W s b.0 b.1 o

  failed_first :
      (s : State) (t : Text) (e : Fault) (o : Outcome W) (g : State → Outcome W)
      → Writes W s t (some e) o
      → Writes W s t (some e) (chain W o g)
  failed_first s t e ((n, some d), s') g w = w
  failed_first s t e ((n, none), s') g w = elim w.ends [ inl h ↦ cc | inr h ↦ cc ]

  then-WritesBody :
      (s : State) (b c : Body) (o : Outcome W) (g : State → Outcome W)
      → WritesBody s b o
      → ((s' : State) → WritesBody s' c (g s'))
      → WritesBody s (then_body b c) (chain W o g)
  then-WritesBody s (t, none) (u, f) o g w k = chain-Writes W s t u f g o w k
  then-WritesBody s (t, some e) c o g w k = failed_first s t e o g w

  parts-WritesBody :
      (ps : List Text) (s : State) → WritesBody s (parts_text ps, none) (write_parts W ps s)
  unfolding write_parts
  parts-WritesBody [] s = nothing-Writes W s none
  parts-WritesBody ([] ∷ ps) s = parts-WritesBody ps s
  parts-WritesBody ((c ∷ p) ∷ ps) s =
      chain-Writes W s (c ∷ p) (parts_text ps) none (write_parts W ps) (W.write s (c ∷ p))
        (write-Writes W s (c ∷ p)) (parts-WritesBody ps)

  record-WritesBody :
      (f : Framing) (p : Text) (s : State)
      → WritesBody s (record_text f p, none) (write_record W f p s)
  unfolding write_record
  record-WritesBody f p s =
      subst (λ t. WritesBody s (f.prefix ++ (p ++ t), none) (write_record W f p s))
        (append-nil f.suffix) (parts-WritesBody (f.prefix ∷ p ∷ f.suffix ∷ []) s)

  path-WritesBody :
      (f : Framing) (claims : List Text) (s : State)
      → WritesBody s (path_text f claims, none) (write_path W f claims s)
  unfolding write_path
  path-WritesBody f [] s = nothing-Writes W s none
  path-WritesBody f (p ∷ ps) s =
      chain-Writes W s (record_text f p) (path_text f ps) none (write_path W f ps)
        (write_record W f p s) (record-WritesBody f p s) (path-WritesBody f ps)

module _ {R : Ranke} (C : Codec R) (W : Writer) where
  open W use {State}

  marshalled-WritesBody :
      (f : Framing) (p : Result Fault Text) (s : State)
      → WritesBody W s (marshalled f p) (write_marshalled W f p s)
  marshalled-WritesBody f (err e) s = nothing-Writes W s (some e)
  marshalled-WritesBody f (ok p) s = record-WritesBody W f p s

  json-WritesBody :
      (p : Result Fault Text) (s : State) → WritesBody W s (json_body p) (write_json W p s)
  json-WritesBody (err e) s = nothing-Writes W s (some e)
  json-WritesBody (ok p) s = write-Writes W s p

  value-WritesBody :
      (f : Framing) (v : Value R C.Report) (s : State)
      → WritesBody W s (value_body C f v) (write_value C W f v s)
  unfolding write_value
  value-WritesBody f v s = marshalled-WritesBody f (C.marshal (encoder f) v) s

  result-WritesBody :
      (f : Framing) (r : QueryResult R C.Report) (s : State)
      → WritesBody W s (result_body C f r) (write_result C W f r s)
  unfolding write_result result_body
  result-WritesBody f (claim_encoded claim) s = record-WritesBody W f claim s
  result-WritesBody f (path_encoded claims) s = path-WritesBody W f claims s
  result-WritesBody f (claim_envelope claim _) s = record-WritesBody W f claim s
  result-WritesBody f (path_envelope claims) s = path-WritesBody W f claims s
  result-WritesBody f (claim_id id) s = value-WritesBody f (id_value (R.id_text id)) s
  result-WritesBody f (path_id ids) s = value-WritesBody f (ids_value (map R.id_text ids)) s
  result-WritesBody f (report r) s = nothing-Writes W s (some unclassified)
  result-WritesBody f native s = nothing-Writes W s (some unclassified)

  next-WritesBody :
      (f : Framing) (r : QueryResult R C.Report) (rs : List (QueryResult R C.Report)) (s : State)
      → ((s' : State) → WritesBody W s' (results_body C f rs) (write_results C W f rs s'))
      → WritesBody W s
          (then_body (result_body C f r) (results_body C f rs))
          (chain W (write_result C W f r s) (write_results C W f rs))
  next-WritesBody f r rs s k =
      then-WritesBody W s (result_body C f r) (results_body C f rs) (write_result C W f r s)
        (write_results C W f rs) (result-WritesBody f r s) k

  results-WritesBody :
      (f : Framing) (rs : List (QueryResult R C.Report)) (s : State)
      → WritesBody W s (results_body C f rs) (write_results C W f rs s)
  unfolding write_results results_body
  results-WritesBody f [] s = nothing-Writes W s none
  results-WritesBody f (report _ ∷ rs) s = results-WritesBody f rs s
  results-WritesBody f (r ∷ rs) s = next-WritesBody f r rs s (results-WritesBody f rs)

  end-WritesBody :
      (f : Framing) (e : Option Fault) (r : Option C.Report) (s : State)
      → WritesBody W s (end_body C f e r) (write_end C W f e r s)
  unfolding write_end
  end-WritesBody f (some e) r s = nothing-Writes W s (some (map_lib_error e))
  end-WritesBody f none none s = nothing-Writes W s none
  end-WritesBody f none (some r) s = value-WritesBody f (report_value r) s

  -- `WriteTo` of any stream into any writer sends bytes that its body begins with, as many as it
  -- reports; it reports the whole body and the error that the body ends with, unless the writer
  -- itself failed, which it then reports. A query's body is one record for each claim, each claim of
  -- a path and each list of ids, in the order of the results, then the report.
  pub write_to-WritesBody :
      (stream : Stream R) (s : State) → WritesBody W s (body_of C stream) (write_to C W stream s)
  unfolding write_to body_of
  write_to-WritesBody (query_stream results q) s =
      let f = framing_for (C.encoding q) in
      then-WritesBody W s (results_body C f (C.results results))
        (end_body C f (C.failure results) (C.final_report results))
        (write_results C W f (C.results results) s)
        (write_end C W f (C.failure results) (C.final_report results))
        (results-WritesBody f (C.results results) s)
        (end-WritesBody f (C.failure results) (C.final_report results))
  write_to-WritesBody (bytes_stream payload) s = write-Writes W s (C.payload_bytes payload)
  write_to-WritesBody (blob_stream content) s =
      subst (λ t. Writes W s t (C.content_failure content) (write_to C W (blob_stream content) s))
        (append-nil (parts_text (C.content_bytes content)))
        (chain-Writes W s (parts_text (C.content_bytes content)) [] (C.content_failure content)
          (λ s'. ((0, C.content_failure content), s')) (write_parts W (C.content_bytes content) s)
          (parts-WritesBody W (C.content_bytes content) s)
          (λ s'. nothing-Writes W s' (C.content_failure content)))
  write_to-WritesBody stream s = json-WritesBody (C.marshal_stream stream) s
