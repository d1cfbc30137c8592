-- ===== src/Rest.antt =====
-- adapters/endpoints/rest_http: the REST endpoint, from a request that the generated router matched to
-- the response. The connection takes what a handler writes; what a handler reads of a body, and the
-- hash that a validator is derived from, are a parameter.
pub mod Credentials
pub mod Presenting
pub mod Cors
pub mod Respond
pub mod Handlers
pub mod Answers
pub mod Calls
pub mod Browsers
pub mod Origins
pub mod Outcomes
pub mod Refusals
pub mod Claims
pub mod Listen
pub mod Addresses
mod Tests
use ranke_db.Base.{ℕ, Option, none, some, List, [], ◌∷◌, Text, text, Result}
use ranke_db.Base.Dict.{Dict, lookup}
use ranke_db.Errors.{Fault, Category}
use ranke_db.Core.Library.{Ranke}

-- the methods of the generated `ServerInterface`, with the path's parameters
pub data Call : Type 0 where
  query contribute list_branches get_archive_info health whoami list_storage_layers : Call
  get_branch_head get_branch_info : Text → Call
  get_branch_claim get_branch_claim_content : Text → Text → Call
  get_archive_claim get_archive_claim_content get_claim get_claim_content : Text → Call
  start_verification list_verifications advance_dev_clock : Call
  get_verification cancel_verification delete_verification : Text → Call

-- `http.Request`: its headers by canonical name, and the method that the router picks for it
pub record HttpRequest (R : Ranke) : Type 0 where
  pub method : Text
  pub headers : Dict Text
  pub call : Call
  pub body : R.Body

-- `Header.Get`
unfoldable pub header : Dict Text → Text → Text
header headers name = elim (lookup name headers) [ none ↦ [] | some value ↦ value ]

-- what a response carries: bytes, an `openapi.Error` by its code, nothing
pub data Carried : Type 0 where
  bytes : Text → Carried
  error_code : Text → Carried
  nothing : Carried

pub record Response : Type 0 where
  pub status : ℕ
  pub headers : Dict Text
  pub body : Carried

-- `openapi.VerificationConfig`
pub record WireConfig : Type 0 where
  pub closure : Text
  pub layer : Option Text
  pub depth : Option Text
  pub content_threshold : Option ℕ

pub record Inputs (R : Ranke) : Type 0 where
  -- `io.ReadAll`, `ranke.DecodeQuery` and the branch that a query selects
  pub read_all : R.Body → Result Fault Text
  pub decode_query : Text → Result Fault R.Query
  pub selected_branch : R.Query → Text
  -- `json.Decoder` on the two bodies that it reads
  pub decode_config : R.Body → Result Fault WireConfig
  pub decode_time : R.Body → Result Fault ℕ
  -- base64 of the first 16 bytes of the SHA-256 hash
  pub digest : Text → Text
  -- the `id` and the `status` of a report in JSON, empty if it has none
  pub report_id : Text → Text
  pub report_status : Text → Text
