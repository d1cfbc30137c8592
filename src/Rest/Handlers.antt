-- ===== src/Rest/Handlers.antt =====
-- adapters/endpoints/rest_http: the handlers of the generated router's calls (endpoints_*.go), and the
-- chain that `New` (rest_http.go) builds around them. A handler makes a request of the core and a
-- response of its answer.
use ranke_db.Base.{none, some, [], ◌∷◌, ◌++◌, Text, text, text_eq, Result, ok, err, if◌then◌else◌}
use ranke_db.Errors.{Fault, cat_invalid, cat_not_found}
use ranke_db.Access.Grant.{universe, archive, branches}
use ranke_db.Auth.{Credential}
use ranke_db.Verification.Values.{Config}
use ranke_db.Core.Library.{Ranke}
use ranke_db.Core.Values.{
  Operation, claim_query, claim_get, claim_content, claim_contribute, branch_head, branch_info,
  branch_list, archive_info, layer_list, health_get, subject_get, verification_start,
  verification_list, verification_get, verification_cancel, verification_delete, dev_clock_advance,
  Request, Server, Exchange, Stream,
}
use ranke_db.Core.Execute.{handle}
use ranke_db.Wire.{Codec, media_json}
use ranke_db.Rest.{
  Call, query, contribute, list_branches, get_archive_info, health, whoami, list_storage_layers,
  get_branch_head, get_branch_info, get_branch_claim, get_branch_claim_content, get_archive_claim,
  get_archive_claim_content, get_claim, get_claim_content, start_verification, list_verifications,
  advance_dev_clock, get_verification, cancel_verification, delete_verification, HttpRequest,
  Response, WireConfig, Inputs, nothing,
}
use ranke_db.Rest.Credentials.{extract_credential}
use ranke_db.Rest.Cors.{CorsPolicy, Handler, with_cors}
use ranke_db.Rest.Respond.{
  retry_after_seconds, write_error, fail, respond_bytes, respond, respond_immutable,
  respond_revalidated, buffered,
}

-- `coreVerConfig`
unfoldable pub core_ver_config : WireConfig → Config
core_ver_config c = record {
  closure = c.closure;
  layer = elim c.layer [ none ↦ [] | some l ↦ l ];
  depth = elim c.depth [ none ↦ [] | some d ↦ d ];
  content_threshold = elim c.content_threshold [ none ↦ 0 | some n ↦ n ];
}

module _ {R : Ranke} where
  -- a `core.Request` of an operation, its other fields zero
  abbrev pub request : Credential → Operation → Request R
  request credential op = record {
    credential = credential;
    op = op;
    branch = [];
    query = none;
    body = none;
    claim_id = none;
    ver_config = none;
    ver_id = [];
    dev_clock_at = 0;
  }

  -- a request of an operation in a scope
  abbrev pub scoped : Credential → Operation → Text → Request R
  scoped credential op branch = record (request credential op) { branch = branch }

  -- a request about a run
  abbrev pub about_run : Credential → Operation → Text → Request R
  about_run credential op id = record (request credential op) { ver_id = id }

  -- the end of every handler: the core's error fails, its stream is rendered
  abbrev pub finish :
      (Stream R → Response) → Result Fault (Stream R) × Exchange R → Response × Exchange R
  finish render (err e, x) = (fail e, x)
  finish render (ok stream, x) = (render stream, x)

  -- `withCredential`
  unfoldable pub with_credential : (Credential → Handler R) → Handler R
  unfolding extract_credential write_error
  with_credential next r x = elim (extract_credential r.headers) [
    | err e ↦ (write_error cat_invalid, x)
    | ok credential ↦ next credential r x
  ]

module _ {R : Ranke} (C : Codec R) (I : Inputs R) where
  -- the 202 of `StartVerification`, the report buffered
  unfoldable pub accepted : Stream R → Response
  unfolding fail respond_bytes text_eq
  accepted stream = elim (buffered C stream).0.1 [
    | some e ↦ fail e
    | none ↦
        let body = (buffered C stream).1 in
        let id = I.report_id body in
        let retry = (text "Retry-After", retry_after_seconds) ∷ [] in
        respond_bytes
          (if text_eq id []
            then retry
            else (text "Location", text "/system/verifications/" ++ id) ∷ retry)
          media_json 202 body
  ]

  -- the 200 of `GetVerification`, the report buffered
  unfoldable pub polled : Stream R → Response
  unfolding fail respond_bytes text_eq
  polled stream = elim (buffered C stream).0.1 [
    | some e ↦ fail e
    | none ↦
        let body = (buffered C stream).1 in
        respond_bytes
          (if text_eq (I.report_status body) (text "running")
            then (text "Retry-After", retry_after_seconds) ∷ []
            else [])
          media_json 200 body
  ]

  abbrev pub no_content : Response
  no_content = record { status = 204; headers = []; body = nothing }

  module _ (c : Server) (credential : Credential) (r : HttpRequest R) where
    -- `core.Handle`, and its stream rendered
    abbrev pub call_core : Request R → (Stream R → Response) → Exchange R → Response × Exchange R
    call_core req render x = finish render (handle c req x)

    -- `claim`
    unfoldable pub by_id : Operation → Text → Text → Exchange R → Response × Exchange R
    unfolding respond_immutable write_error
    by_id op scope id_param x = elim (C.parse_id id_param) [
      | err e ↦ (write_error cat_not_found, x)
      | ok id ↦
          call_core (record (scoped credential op scope) { claim_id = some id })
            (λ stream. respond_immutable C r stream (R.id_text id)) x
    ]

    -- `Query`
    unfoldable pub serve_query : Exchange R → Response × Exchange R
    unfolding respond write_error
    serve_query x = elim (I.read_all r.body) [
      | err e ↦ (write_error cat_invalid, x)
      | ok body ↦ elim (I.decode_query body) [
        | err e ↦ (write_error cat_invalid, x)
        | ok rq ↦
            call_core
              (record (scoped credential claim_query (I.selected_branch rq)) { query = some rq })
              (λ stream. respond C [] stream 200) x
      ]
    ]

    -- `StartVerification`
    unfoldable pub serve_start : Exchange R → Response × Exchange R
    unfolding accepted write_error core_ver_config
    serve_start x = elim (I.decode_config r.body) [
      | err e ↦ (write_error cat_invalid, x)
      | ok cfg ↦
          call_core
            (record (request credential verification_start) {
              ver_config = some (core_ver_config cfg);
            })
            accepted x
    ]

    -- `AdvanceDevClock`
    unfoldable pub serve_clock : Exchange R → Response × Exchange R
    unfolding respond write_error
    serve_clock x = elim (I.decode_time r.body) [
      | err e ↦ (write_error cat_invalid, x)
      | ok at ↦
          call_core (record (request credential dev_clock_advance) { dev_clock_at = at })
            (λ stream. respond C [] stream 200) x
    ]

    -- the method of `Server` for each call
    unfoldable pub serve_call : Call → Exchange R → Response × Exchange R
    unfolding by_id serve_query serve_start serve_clock respond respond_revalidated polled
    serve_call query = serve_query
    serve_call contribute =
        call_core (record (request credential claim_contribute) { body = some r.body })
          (λ stream. respond C [] stream 201)
    serve_call list_branches =
        call_core (scoped credential branch_list branches) (respond_revalidated C I r)
    serve_call (get_branch_head branch) =
        call_core (scoped credential branch_head branch) (respond_revalidated C I r)
    serve_call (get_branch_info branch) =
        call_core (scoped credential branch_info branch) (respond_revalidated C I r)
    serve_call get_archive_info =
        call_core (scoped credential archive_info archive) (respond_revalidated C I r)
    serve_call (get_branch_claim branch id) = by_id claim_get branch id
    serve_call (get_branch_claim_content branch id) = by_id claim_content branch id
    serve_call (get_archive_claim id) = by_id claim_get archive id
    serve_call (get_archive_claim_content id) = by_id claim_content archive id
    serve_call (get_claim id) = by_id claim_get universe id
    serve_call (get_claim_content id) = by_id claim_content universe id
    serve_call health =
        call_core (request credential health_get) (λ stream. respond C [] stream 200)
    serve_call whoami =
        call_core (request credential subject_get) (λ stream. respond C [] stream 200)
    serve_call list_storage_layers =
        call_core (request credential layer_list) (λ stream. respond C [] stream 200)
    serve_call start_verification = serve_start
    serve_call list_verifications =
        call_core (request credential verification_list) (λ stream. respond C [] stream 200)
    serve_call (get_verification id) = call_core (about_run credential verification_get id) polled
    serve_call (cancel_verification id) =
        call_core (about_run credential verification_cancel id) (λ stream. respond C [] stream 200)
    serve_call (delete_verification id) =
        call_core (about_run credential verification_delete id) (λ stream. no_content)
    serve_call advance_dev_clock = serve_clock

  -- the router behind the credential, the part of the chain that `New` puts behind its policy
  abbrev pub routed : Server → Handler R
  routed c = with_credential (λ credential r. serve_call c credential r r.call)

  -- the handler that `New` puts under the listener, for the calls of the generated router
  unfoldable pub serve : Server → CorsPolicy → Handler R
  unfolding with_cors with_credential serve_call
  serve c policy = with_cors policy (routed c)
