-- ===== src/Wire/RoundTrip.antt =====
-- internal/core/serve.go and client/seq.go: what the client reads of the server's query stream.
use ranke_db.Base.{
  ◌≡◌, refl, sym, ap, ◌∙◌, inl, inr, Option, none, some, List, [], ◌∷◌, ◌++◌, Text, text_eq, ok,
  ◌>>=◌, map, All, All-append, Result-cases,
}
use mathlib.Core.Path.{subst}
use mathlib.Core.List.{append-nil, append_assoc}
use ranke_db.Errors.{Fault}
use ranke_db.Core.Library.{Ranke}
use ranke_db.Core.Values.{query_stream}
use ranke_db.Wire.{
  Encoding, result_json, result_cbor, QueryResult, claim_encoded, path_encoded, claim_envelope,
  path_envelope, claim_id, path_id, report, native, Value, id_value, ids_value, report_value, Codec,
}
use ranke_db.Wire.Serve.{framing_for, encoder, content_type}
use ranke_db.Wire.Body.{
  Body, then_body, record_text, path_text, marshalled, value_body, result_body, results_body,
  end_body, body_of,
}
use ranke_db.Wire.Split.{split_body}
use ranke_db.Wire.Records.{decode_record, decode_all, read_query}
use ranke_db.Wire.JsonSequence.{split_json_seq-path_text}
use ranke_db.Wire.CborSequence.{split_cbor_seq-path_text}
use ranke_db.Wire.Laws.{IsFramed, IsReadable, IsLawful}
use ranke_db.Wire.Reading.{decode_id, decode_ids, decode_report, decode_claim, decode_envelope}

-- the results without the report, which the stream writes last
abbrev pub without_reports :
    {R : Ranke} {A : Type 0} → List (QueryResult R A) → List (QueryResult R A)
without_reports [] = []
without_reports (report _ ∷ rs) = without_reports rs
without_reports (r ∷ rs) = r ∷ without_reports rs

abbrev pub reported : {R : Ranke} {A : Type 0} → Option A → List (QueryResult R A)
reported none = []
reported (some r) = report r ∷ []

then_body_split :
    (a b : Body) (t : Text)
    → then_body a b ≡ (t, none)
    → (u : Text) × (v : Text) × (a ≡ (u, none)) × (b ≡ (v, none)) × (t ≡ u ++ v)
then_body_split (u, none) (v, f) t h =
    (u, v, refl, ap (λ e. (v, e)) (ap (λ (p : Body). p.1) h), sym (ap (λ (p : Body). p.0) h))
then_body_split (u, some e) b t h = let bad = ap (λ (p : Body). p.1) h in cc

path_text-append :
    (enc : Encoding) (ps qs : List Text)
    → path_text (framing_for enc) (ps ++ qs)
      ≡ path_text (framing_for enc) ps ++ path_text (framing_for enc) qs
path_text-append enc [] qs = refl
path_text-append enc (p ∷ ps) qs =
    let f = framing_for enc in
    ap (λ u. record_text f p ++ u) (path_text-append enc ps qs)
    ∙ sym (append_assoc (record_text f p) (path_text f ps) (path_text f qs))

module _ {R : Ranke} (C : Codec R) where
  -- a text that carries results: written from records that are read back as them
  pub record Carries (enc : Encoding) (t : Text) (rs : List (QueryResult R C.Report)) : Type 0 where
    pub records : List Text
    pub written : t ≡ path_text (framing_for enc) records
    pub framed : All (IsFramed C enc) records
    pub read : decode_all C enc records ≡ ok rs

  decode_all-append :
      (enc : Encoding) (ps qs : List Text) (ss : List (QueryResult R C.Report))
      → decode_all C enc qs ≡ ok ss
      → decode_all C enc (ps ++ qs) ≡ (decode_all C enc ps >>= (λ rs. ok (rs ++ ss)))
  unfolding decode_all
  decode_all-append enc [] qs ss k = k
  decode_all-append enc (p ∷ ps) qs ss k = elim (Result-cases (decode_record C enc p)) [
    | inl (e, g) ↦ rw (g) refl
    | inr (r, g) ↦ rw (g) (
        rw (decode_all-append enc ps qs ss k) (elim (Result-cases (decode_all C enc ps)) [
          | inl (e, h) ↦ rw (h) refl
          | inr (rs, h) ↦ rw (h) refl
        ]))
  ]

  append-Carries :
      (enc : Encoding) (t u : Text) (rs ss : List (QueryResult R C.Report))
      → Carries enc t rs
      → Carries enc u ss
      → Carries enc (t ++ u) (rs ++ ss)
  append-Carries enc t u rs ss a b =
      let f = framing_for enc in
      record {
        records = a.records ++ b.records;
        written =
            ap (λ v. v ++ u) a.written
            ∙ ap (λ v. path_text f a.records ++ v) b.written
            ∙ sym (path_text-append enc a.records b.records);
        framed = All-append (IsFramed C enc) a.records b.records a.framed b.framed;
        read =
            decode_all-append enc a.records b.records ss b.read
            ∙ ap (λ o. o >>= (λ rs. ok (rs ++ ss))) a.read;
      }

  then-Carries :
      (enc : Encoding) (a b : Body) (t : Text) (rs ss : List (QueryResult R C.Report))
      → then_body a b ≡ (t, none)
      → ((u : Text) → a ≡ (u, none) → Carries enc u rs)
      → ((v : Text) → b ≡ (v, none) → Carries enc v ss)
      → Carries enc t (rs ++ ss)
  then-Carries enc a b t rs ss h k l =
      let (u, v, p, q, e) = then_body_split a b t h in
      subst (λ w. Carries enc w (rs ++ ss)) (sym e) (append-Carries enc u v rs ss (k u p) (l v q))

  one-Carries :
      (enc : Encoding) (p : Text) (r : QueryResult R C.Report)
      → IsFramed C enc p
      → decode_record C enc p ≡ ok r
      → Carries enc (record_text (framing_for enc) p) (r ∷ [])
  unfolding decode_all
  one-Carries enc p r f d = record {
    records = p ∷ [];
    written = sym (append-nil (record_text (framing_for enc) p));
    framed = (f, tt);
    read = rw (d) refl;
  }

  none-Carries : (enc : Encoding) → Carries enc [] []
  unfolding decode_all
  none-Carries enc = record { records = []; written = refl; framed = tt; read = refl }

  encoder-framing_for : (enc : Encoding) → encoder (framing_for enc) ≡ enc
  unfolding framing_for text_eq
  encoder-framing_for result_json = refl
  encoder-framing_for result_cbor = refl

  -- a value that was marshalled
  value_text :
      (enc : Encoding) (v : Value R C.Report) (t : Text)
      → value_body C (framing_for enc) v ≡ (t, none)
      → (p : Text) × (C.marshal enc v ≡ ok p) × (record_text (framing_for enc) p ≡ t)
  value_text enc v t h = elim (Result-cases (C.marshal enc v)) [
    | inl (e, g) ↦
        let k : value_body C (framing_for enc) v ≡ ([], some e) =
          ap (λ d. marshalled (framing_for enc) (C.marshal d v)) (encoder-framing_for enc)
          ∙ ap (marshalled (framing_for enc)) g in
        let bad = ap (λ (p : Body). p.1) (sym k ∙ h) in cc
    | inr (p, g) ↦
        let k : value_body C (framing_for enc) v ≡ (record_text (framing_for enc) p, none) =
          ap (λ d. marshalled (framing_for enc) (C.marshal d v)) (encoder-framing_for enc)
          ∙ ap (marshalled (framing_for enc)) g in
        (p, g, ap (λ (p : Body). p.0) (sym k ∙ h))
  ]

  module _ (laws : IsLawful C) (enc : Encoding) where
    value-Carries :
        (v : Value R C.Report) (r : QueryResult R C.Report)
        → ((p : Text) → C.marshal enc v ≡ ok p → decode_record C enc p ≡ ok r)
        → (t : Text) → value_body C (framing_for enc) v ≡ (t, none)
        → Carries enc t (r ∷ [])
    value-Carries v r d t h =
        let (p, m, e) = value_text enc v t h in
        subst (λ u. Carries enc u (r ∷ [])) e (one-Carries enc p r (laws.framed enc v p m) (d p m))

    record-Carries :
        (p : Text) (r : QueryResult R C.Report) (t : Text)
        → IsFramed C enc p
        → decode_record C enc p ≡ ok r
        → ◌≡◌ {A = Body} (record_text (framing_for enc) p, none) (t, none)
        → Carries enc t (r ∷ [])
    record-Carries p r t f d h =
        subst (λ u. Carries enc u (r ∷ [])) (ap (λ (b : Body). b.0) h) (one-Carries enc p r f d)

  result-Carries :
      IsLawful C
      → (enc : Encoding) (r : QueryResult R C.Report) (t : Text) → IsReadable C enc r
      → result_body C (framing_for enc) r ≡ (t, none)
      → Carries enc t (r ∷ [])
  unfolding result_body IsReadable
  result-Carries laws enc (claim_encoded p) t (f, c) h =
      record-Carries laws enc p (claim_encoded p) t f (decode_claim C laws enc p f c) h
  result-Carries laws result_cbor (claim_envelope p (some claim)) t (f, s) h =
      record-Carries laws result_cbor p (claim_envelope p (some claim)) t f
        (decode_envelope C laws p claim s) h
  result-Carries laws enc (claim_id id) t q h =
      value-Carries laws enc (id_value (R.id_text id)) (claim_id id) (decode_id C laws enc id) t h
  result-Carries laws enc (path_id ids) t q h =
      value-Carries laws enc (ids_value (map R.id_text ids)) (path_id ids)
        (decode_ids C laws enc ids) t h
  result-Carries laws enc (report r) t q h = let bad = ap (λ (b : Body). b.1) h in cc
  result-Carries laws enc (path_encoded ps) t q h = elim q [ ]
  result-Carries laws enc (path_envelope ps) t q h = elim q [ ]
  result-Carries laws enc native t q h = elim q [ ]
  result-Carries laws result_json (claim_envelope p none) t q h = elim q [ ]
  result-Carries laws result_cbor (claim_envelope p none) t q h = elim q [ ]
  result-Carries laws result_json (claim_envelope p (some c)) t q h = elim q [ ]

  results-Carries :
      IsLawful C
      → (enc : Encoding) (rs : List (QueryResult R C.Report)) (t : Text) → All (IsReadable C enc) rs
      → results_body C (framing_for enc) rs ≡ (t, none)
      → Carries enc t (without_reports rs)
  unfolding results_body
  results-Carries laws enc [] t q h =
      subst (λ u. Carries enc u []) (ap (λ (b : Body). b.0) h) (none-Carries enc)
  results-Carries laws enc (report _ ∷ rs) t q h = results-Carries laws enc rs t q.1 h
  results-Carries laws enc (r ∷ rs) t q h =
      then-Carries enc (result_body C (framing_for enc) r) (results_body C (framing_for enc) rs) t
        (r ∷ []) (without_reports rs) h (λ u. result-Carries laws enc r u q.0)
        (λ v. results-Carries laws enc rs v q.1)

  end-Carries :
      IsLawful C
      → (enc : Encoding) (e : Option Fault) (r : Option C.Report) (t : Text)
      → end_body C (framing_for enc) e r ≡ (t, none)
      → Carries enc t (reported r)
  end-Carries laws enc (some e) r t h = let bad = ap (λ (b : Body). b.1) h in cc
  end-Carries laws enc none none t h =
      subst (λ u. Carries enc u []) (ap (λ (b : Body). b.0) h) (none-Carries enc)
  end-Carries laws enc none (some r) t h =
      value-Carries laws enc (report_value r) (report r) (decode_report C laws enc r) t h

  -- The media type of a response picks the framing that it was written in.
  split_body-path_text :
      IsLawful C
      → (enc : Encoding) (ps : List Text) → All (IsFramed C enc) ps
      → split_body C (framing_for enc).media_type (path_text (framing_for enc) ps) none
        ≡ ok (ps, enc)
  unfolding split_body text_eq framing_for
  split_body-path_text laws result_json ps f =
      rw (laws.media result_json, framing_for, split_body)
        (ap (λ o. o >>= (λ records. ok (records, result_json))) (split_json_seq-path_text ps f))
  split_body-path_text laws result_cbor ps f =
      rw (laws.media result_cbor, framing_for, split_body)
        (ap (λ o. o >>= (λ records. ok (records, result_cbor)))
          (split_cbor_seq-path_text C laws.ends ps f))

  read-Carries :
      IsLawful C
      → (enc : Encoding) (t : Text) (rs : List (QueryResult R C.Report)) → Carries enc t rs
      → read_query C (framing_for enc).media_type t none ≡ ok rs
  unfolding read_query
  read-Carries laws enc t rs c =
      ap (λ u. read_query C (framing_for enc).media_type u none) c.written
      ∙ ap (λ o. o >>= (λ split. decode_all C split.1 split.0))
          (split_body-path_text laws enc c.records c.framed)
      ∙ c.read

  -- With decoders that read back what the encoders write, the client reads off a query's response,
  -- in either encoding, the results the query had, in their order, and then the report if there is
  -- one: where no result is a path of claims or a native value, an envelope comes only in CBOR, and
  -- the server wrote the response without an error.
  pub read_query-body_of :
      IsLawful C
      → (results : R.Results) (q : R.Query) (t : Text)
      → All (IsReadable C (C.encoding q)) (C.results results)
      → body_of C (query_stream results q) ≡ (t, none)
      → read_query C (content_type C (query_stream results q)) t none
        ≡ ok (without_reports (C.results results) ++ reported (C.final_report results))
  unfolding body_of content_type
  read_query-body_of laws results q t all h =
      let enc = C.encoding q in
      let f = framing_for enc in
      read-Carries laws enc t
        (without_reports (C.results results) ++ reported (C.final_report results))
        (then-Carries enc (results_body C f (C.results results))
          (end_body C f (C.failure results) (C.final_report results)) t
          (without_reports (C.results results)) (reported (C.final_report results)) h
          (λ u. results-Carries laws enc (C.results results) u all)
          (end-Carries laws enc (C.failure results) (C.final_report results)))
