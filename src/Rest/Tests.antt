-- ===== src/Rest/Tests.antt =====
-- Requests over HTTP at concrete inputs.
use ranke_db.Base.{
  ◌≡◌, refl, true, false, ◌||◌, none, [], ◌∷◌, ◌++◌, text, text_eq, trim_right, cut_at, lower,
  has_prefix, ok_unique, ok, err, any, map,
}
use mathlib.Core.Path.{subst}
use ranke_db.Core.Library.{Constraints}
use ranke_db.Base.Dict.{lookup, insert}
use ranke_db.Errors.{fault, unauthenticated}
use ranke_db.Access.Glob.{match_glob, match_branch}
use ranke_db.Access.Grant.{bit, allows}
use ranke_db.Access.Checker.{held, any_allows, all_allows, allow}
use ranke_db.Auth.{Credential, scheme_macaroon, scheme_api_key, authenticate}
use ranke_db.Core.Values.{right_of}
use ranke_db.Core.Read
use ranke_db.Core.Pipeline
use ranke_db.Core.Execute.{handle, execute, dispatch, on_archive, answer}
use ranke_db.Core.Samples.{merge_count, server, exchange}
use ranke_db.Wire.Samples.{codec}
use ranke_db.Wire.Split.{strip, trim_space}
use ranke_db.Rest.{get_branch_claim, HttpRequest, Inputs, header}
use ranke_db.Rest.Credentials.{
  authorization, extract_credential, authorization_credential, Settings, credential_headers,
}
use ranke_db.Rest.Presenting.{extract_credential-credential_headers}
use ranke_db.Rest.Cors.{
  CorsPolicy, add_origins, add_trimmed, trimmed, enabled, with_cors, is_preflight, preflight_answer,
}
use ranke_db.Rest.Origins.{Entry, written, names, ends_in_slash, allows-add_written}
use ranke_db.Rest.Respond.{respond, respond_bytes, respond_immutable, matches, not_modified}
use ranke_db.Rest.Handlers.{serve, with_credential, serve_call, by_id}
use ranke_db.Rest.Outcomes.{IsUnchanged, serve-IsUnchanged}
use ranke_db.Rest.Refusals.{IsRefused, serve-IsRefused}
use ranke_db.Rest.Claims.{is_given, ServedClaim, serve-IsServed}
use ranke_db.Rest.Listen.{unix_scheme}
use ranke_db.Rest.Addresses.{Judged, parse_addr-validate_addr}
use ranke_db.Rest.Cors

abbrev inputs : Inputs merge_count
inputs = record {
  read_all = λ b. ok [];
  decode_query = λ t. ok 0;
  selected_branch = λ q. text "main";
  decode_config = λ b.
      ok (record {
        closure = text "complete";
        layer = none;
        depth = none;
        content_threshold = none;
      });
  decode_time = λ b. ok 5;
  digest = λ t. t;
  report_id = λ t. [];
  report_status = λ t. [];
}

abbrev macaroon_only : Settings
macaroon_only = record { token = []; api_key = []; macaroon = text "AgE" }

extract_credential-credential_headers_example :
    extract_credential ((authorization, text "Macaroon AgE") ∷ [])
    ≡ ok (record { scheme = scheme_macaroon; token = text "AgE" })
unfolding header lookup credential_headers insert
extract_credential-credential_headers_example =
    extract_credential-credential_headers [] refl refl macaroon_only
      ((authorization, text "Macaroon AgE") ∷ []) refl

abbrev no_content_body : Constraints
no_content_body = record { branches = []; referencable = []; lifted = []; creatable = [] }

-- the claim 7 of main, over HTTP, by bob
abbrev get_seven : HttpRequest merge_count
get_seven = record {
  method = text "GET";
  headers = (authorization, text "Bearer bob") ∷ (text "Origin", text "https://a.example") ∷ [];
  call = get_branch_claim (text "main") (7 ∷ []);
  body = no_content_body;
}

abbrev policy : CorsPolicy
policy = record { origins = text "https://a.example" ∷ []; any_origin = false }

-- " https://b.example// "
abbrev spaced : Entry
spaced = record {
  before = text " ";
  origin = text "https://b.example";
  slashes = text "//";
  after = text " ";
}

allows-add_written_example :
    Cors.allows
      (add_origins policy (map written (spaced ∷ [])))
      (text "https://b.example" ++ text "/")
    ≡ (any (λ (e : Entry). names (text "https://b.example") e.origin) (spaced ∷ [])
        || Cors.allows policy (text "https://b.example" ++ text "/"))
unfolding ends_in_slash
allows-add_written_example =
    allows-add_written policy (spaced ∷ []) (text "https://b.example") (text "/")
      (
        record {
          before = refl;
          slashes = refl;
          after = refl;
          first = refl;
          last = refl;
          unslashed = refl;
        },
        tt,
      )
      refl refl

serve-IsUnchanged_example :
    IsUnchanged exchange (serve codec inputs server policy get_seven exchange).1
serve-IsUnchanged_example = serve-IsUnchanged codec inputs server get_seven exchange policy refl

-- the same request with a key, where the server has no backend for keys
abbrev keyed : HttpRequest merge_count
keyed = record get_seven { headers = (text "X-Api-Key", text "secret") ∷ [] }

abbrev key : Credential
key = record { scheme = scheme_api_key; token = text "secret" }

serve-IsRefused_example :
    IsRefused codec inputs server keyed exchange (serve codec inputs server policy keyed exchange)
unfolding extract_credential header lookup text_eq authenticate
serve-IsRefused_example = serve-IsRefused codec inputs server keyed exchange policy (λ k h.
    let same : key ≡ k = ok_unique (extract_credential keyed.headers) key k refl h in
    (
      fault unauthenticated,
      subst (λ j. authenticate server.auth j ≡ err (fault unauthenticated)) same refl,
    ))

parse_addr-validate_addr_example : Judged unix_scheme
parse_addr-validate_addr_example = parse_addr-validate_addr unix_scheme

seven_is_given : is_given (serve codec inputs server policy get_seven exchange).0.status ≡ true
unfolding serve with_cors with_credential serve_call by_id extract_credential
    authorization_credential header cut_at lower respond_immutable respond respond_bytes matches
    not_modified is_preflight Cors.enabled Cors.allows trim_right trim_space strip handle
    Pipeline.authenticate Pipeline.authorize Pipeline.allow Pipeline.archive Pipeline.branch execute
    dispatch on_archive answer Read.claim Read.scoped_claim authenticate right_of allow held
    any_allows all_allows allows match_branch match_glob bit has_prefix lookup text_eq
seven_is_given = refl

serve-IsServed_example :
    ServedClaim codec server get_seven exchange
      (text "main")
      (7 ∷ [])
      (serve codec inputs server policy get_seven exchange).0
serve-IsServed_example = serve-IsServed codec server get_seven exchange inputs policy seven_is_given
