-- ===== src/Rest/Claims.antt =====
-- adapters/endpoints/rest_http/endpoints_read.go: a claim over HTTP, from the header that presents a
-- credential to the bytes of the answer.
use ranke_db.Base.{
  ◌≡◌, refl, sym, ap, ◌∙◌, ◌⊎◌, inl, inr, ℕ, Bool, true, false, ◌||◌, Option, none, some, Text,
  text, Result, ok, err, ◌==◌, Bool-cases, Result-cases,
}
use mathlib.Core.Path.{subst}
use ranke_db.Errors.{
  Fault, Category, no_category, categorize_fault, http_status, cat_invalid, cat_not_found,
}
use ranke_db.Access.Grant.{universe, archive}
use ranke_db.Auth.{Credential}
use ranke_db.Core.Library.{Ranke}
use ranke_db.Core.Values.{claim_get, Request, Server, Exchange, Stream, bytes_stream}
use ranke_db.Core.Execute.{handle}
use ranke_db.Core.Serving.{Served, handle-Served}
use ranke_db.Wire.{Codec}
use ranke_db.Wire.Serve.{write_to}
use ranke_db.Rest.{
  Call, get_branch_claim, get_archive_claim, get_claim, HttpRequest, Response, Inputs, bytes,
  nothing, header,
}
use ranke_db.Rest.Credentials.{extract_credential}
use ranke_db.Rest.Cors.{CorsPolicy, preflight_answer}
use ranke_db.Rest.Browsers.{untouched, preflight, readable, with_cors-CorsAnswer}
use ranke_db.Rest.Respond.{
  write_error, fail, respond_bytes, respond, not_modified, respond_immutable, matches, strong_tag,
}
use ranke_db.Rest.Handlers.{scoped, finish, by_id, with_credential, routed, serve_call, serve}

-- the scope and the id that a call for a claim names
abbrev pub claim_named : Call → Option (Text × Text)
claim_named (get_branch_claim scope id) = some (scope, id)
claim_named (get_archive_claim id) = some (archive, id)
claim_named (get_claim id) = some (universe, id)
claim_named _ = none

-- the statuses of a claim that is served: with it, or without it to a client that holds it
abbrev pub is_given : ℕ → Bool
is_given n = n == 200 || n == 304

error_status : (cat : Category) → is_given (write_error cat).status ≡ false
unfolding write_error http_status
error_status no_category = refl
error_status _ = refl

given_stream :
    {R : Ranke} (render : Stream R → Response) (o : Result Fault (Stream R) × Exchange R)
    → is_given (finish render o).0.status ≡ true
    → (s : Stream R) × (o.0 ≡ ok s) × ((finish render o).0 ≡ render s)
unfolding fail
given_stream render (err e, x) h = let bad = sym h ∙ error_status (categorize_fault e) in cc
given_stream render (ok s, x) h = (s, refl, refl)

module _ {R : Ranke} (C : Codec R) (c : Server) (r : HttpRequest R) (x : Exchange R) where
  -- what a claim over HTTP is: a claim served by the core to the credential in the request's headers,
  -- under the id in its path, with the claim's bytes or with no body at all
  pub record ServedClaim (scope param : Text) (a : Response) : Type 0 where
    pub credential : Credential
    pub presented : extract_credential r.headers ≡ ok credential
    pub id : R.ClaimId
    pub parsed : C.parse_id param ≡ ok id
    pub stream : Stream R
    pub served :
        Served c (record (scoped credential claim_get scope) { claim_id = some id }) x.world stream
    pub body :
        ((a.status ≡ 304) × (a.body ≡ nothing))
        ⊎ ((a.status ≡ 200) × (a.body ≡ bytes (C.payload_bytes served.payload)))

  immutable_body :
      (p : R.Payload) (id : Text)
      → ((respond_immutable C r (bytes_stream p) id).status ≡ 304)
          × ((respond_immutable C r (bytes_stream p) id).body ≡ nothing)
        ⊎ ((respond_immutable C r (bytes_stream p) id).status ≡ 200)
          × ((respond_immutable C r (bytes_stream p) id).body ≡ bytes (C.payload_bytes p))
  unfolding respond_immutable respond respond_bytes not_modified write_to
  immutable_body p id =
      elim (Bool-cases (matches (header r.headers (text "If-None-Match")) (strong_tag id))) [
        | inl e ↦ rw (e, respond_immutable) (inl (refl, refl))
        | inr e ↦ rw (e, respond_immutable) (inr (refl, refl))
      ]

  module _ (I : Inputs R) (k : Credential) (scope param : Text) where
    unread_id :
        (e : Fault)
        → C.parse_id param ≡ err e
        → by_id C I c k r claim_get scope param x ≡ (write_error cat_not_found, x)
    unfolding by_id
    unread_id e h = rw (h, by_id) refl

    read_id :
        (id : R.ClaimId)
        → C.parse_id param ≡ ok id
        → by_id C I c k r claim_get scope param x
          ≡ finish
              (λ s. respond_immutable C r s (R.id_text id))
              (handle c (record (scoped k claim_get scope) { claim_id = some id }) x)
    unfolding by_id
    read_id id h = rw (h, by_id) refl

    by_id-ServedClaim :
        extract_credential r.headers ≡ ok k
        → is_given (by_id C I c k r claim_get scope param x).0.status ≡ true
        → ServedClaim scope param (by_id C I c k r claim_get scope param x).0
    by_id-ServedClaim e h = elim (Result-cases (C.parse_id param)) [
      | inl (f, g) ↦
          let same = ap (λ (a : Response × Exchange R). is_given a.0.status) (unread_id f g) in
          let bad = sym h ∙ same ∙ error_status cat_not_found in cc
      | inr (id, g) ↦
          let req : Request R = record (scoped k claim_get scope) { claim_id = some id } in
          let render : Stream R → Response = λ s. respond_immutable C r s (R.id_text id) in
          let same = ap (λ (a : Response × Exchange R). a.0) (read_id id g) in
          let (s, o, q) =
            given_stream render (handle c req x) (sym (ap (λ a. is_given a.status) same) ∙ h) in
          let served = handle-Served c req x s refl o in
          let answer = same ∙ q ∙ ap render served.serves in
          record {
            credential = k;
            presented = e;
            id = id;
            parsed = g;
            stream = s;
            served = served;
            body =
                subst
                  (λ a.
                    ((a.status ≡ 304) × (a.body ≡ nothing))
                    ⊎ ((a.status ≡ 200) × (a.body ≡ bytes (C.payload_bytes served.payload))))
                  (sym answer) (immutable_body served.payload (R.id_text id));
          }
    ]

  -- for a call that names a claim, that the answer is that claim, served
  abbrev pub IsServed : Option (Text × Text) → Response → Type 0
  IsServed none a = Unit
  IsServed (some (scope, param)) a = ServedClaim scope param a

  call-IsServed :
      (I : Inputs R) (k : Credential) (call : Call)
      → extract_credential r.headers ≡ ok k
      → is_given (serve_call C I c k r call x).0.status ≡ true
      → IsServed (claim_named call) (serve_call C I c k r call x).0
  unfolding serve_call
  call-IsServed I k (get_branch_claim b i) e h = by_id-ServedClaim I k b i e h
  call-IsServed I k (get_archive_claim i) e h = by_id-ServedClaim I k archive i e h
  call-IsServed I k (get_claim i) e h = by_id-ServedClaim I k universe i e h
  call-IsServed I k _ e h = tt

  -- other headers leave a served claim what it is
  readable-IsServed :
      (named : Option (Text × Text)) (a b : Response)
      → b.status ≡ a.status
      → b.body ≡ a.body
      → IsServed named a
      → IsServed named b
  readable-IsServed none a b s t v = tt
  readable-IsServed (some (scope, param)) a b s t v = record {
    credential = v.credential;
    presented = v.presented;
    id = v.id;
    parsed = v.parsed;
    stream = v.stream;
    served = v.served;
    body = elim v.body [ inl h ↦ inl (s ∙ h.0, t ∙ h.1) | inr h ↦ inr (s ∙ h.0, t ∙ h.1) ];
  }

  module _ (I : Inputs R) where
    inner-IsServed :
        is_given (routed C I c r x).0.status ≡ true
        → IsServed (claim_named r.call) (routed C I c r x).0
    unfolding with_credential
    inner-IsServed h = elim (Result-cases (extract_credential r.headers)) [
      | inl (e, g) ↦
          let same : (routed C I c r x).0 ≡ write_error cat_invalid =
            rw (g, with_credential) refl in
          let bad = sym h ∙ ap (λ a. is_given a.status) same ∙ error_status cat_invalid in cc
      | inr (k, g) ↦
          let same : routed C I c r x ≡ serve_call C I c k r r.call x =
            rw (g, with_credential) refl in
          subst (λ a. IsServed (claim_named r.call) a.0) (sym same)
            (call-IsServed I k r.call g (sym (ap (λ a. is_given a.0.status) same) ∙ h))
    ]

    -- An answer 200 or 304 to a request for a claim comes from a principal that the headers'
    -- credential proves and that may read the scope in the path; it stands for the claim with the id
    -- in the path, found where that scope looks, which is the Universe or the archive where the path
    -- has the name `$universe` or `$archive` for a branch, and its body is that claim's envelope or, for 304,
    -- empty: a client that may not read a claim is not even told that its copy is current.
    pub serve-IsServed :
        (policy : CorsPolicy)
        → is_given (serve C I c policy r x).0.status ≡ true
        → IsServed (claim_named r.call) (serve C I c policy r x).0
    unfolding serve preflight_answer
    serve-IsServed policy h = elim (with_cors-CorsAnswer policy (routed C I c) r x) [
      | untouched n g ↦
          subst (λ a. IsServed (claim_named r.call) a.0) (sym g)
            (inner-IsServed (sym (ap (λ a. is_given a.0.status) g) ∙ h))
      | preflight d p g ↦ let bad = sym h ∙ ap (λ a. is_given a.0.status) g in cc
      | readable d p s g ↦
          let st = ap (λ (a : Response). a.status) g in
          readable-IsServed (claim_named r.call) (routed C I c r x).0 _ st
            (ap (λ (a : Response). a.body) g) (inner-IsServed (sym (ap is_given st) ∙ h))
    ]
