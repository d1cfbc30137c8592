-- ===== src/Core/Values.antt =====
-- internal/core/request.go: operations with the right that each needs, the request with its ingress
-- fields, the lines of its report; and the values that a stream carries (internal/core/execute.go
-- and domain.go). The text of a report line is left out: a line is its format's name with what is
-- printed in it.
use ranke_db.Base.{ℕ, Bool, Option, none, some, List, Text}
use ranke_db.Access.Grant.{contribute_right, read_right, delete_right}
use ranke_db.Access.Checker.{Principal}
use ranke_db.Auth.{Credential}
use ranke_db.Verification.{Registry}
use ranke_db.Verification.Values.{Config, Report}
use ranke_db.Auth.{BackendSet}
use ranke_db.Access.Checker.{Checker}
use ranke_db.Core.Library.{Ranke}

pub data Operation : Type 0 where
  claim_query claim_get claim_content claim_contribute claim_delete : Operation
  branch_head branch_info branch_list archive_info : Operation
  layer_list layer_info health_get subject_get : Operation
  verification_start verification_list verification_get : Operation
  verification_cancel verification_delete dev_clock_advance : Operation

-- `Operation.Right`: none is 0
unfoldable pub right_of : Operation → Option ℕ
right_of claim_query = some read_right
right_of claim_get = some read_right
right_of claim_content = some read_right
right_of branch_head = some read_right
right_of branch_info = some read_right
right_of branch_list = some read_right
right_of archive_info = some read_right
right_of claim_contribute = some contribute_right
right_of claim_delete = some delete_right
right_of _ = none

pub data Line : Type 0 where
  authenticated_as : Text → Line
  no_grant_required authorized_per_branch : Line
  authorized : ℕ → Text → Line
  snapshot : Text → Line
  not_yet_implemented : Operation → Line
  query_executed health_reported : Line
  claim_read content_read branch_head_read branch_described : Text → Line
  archive_described subject_reported : Text → Line
  branches_listed layers_listed reports_listed : ℕ → Line
  clock_advanced : ℕ → Line
  run_started run_read run_stopped run_deleted : Text → Line
  may_reference : List Text → List Text → Line
  would_be_created : List Text → Line
  merged : ℕ → List Text → Text → Line

-- `StorageLayer`
pub record Layer : Type 0 where
  pub name : Text
  pub kind : Text

module _ (R : Ranke) where
  open R use {ClaimId, Query, Body, Results, Payload, Content}

  -- `Request`, its ingress fields; a nil field is none
  pub record Request : Type 0 where
    pub credential : Credential
    pub op : Operation
    pub branch : Text
    pub query : Option Query
    pub body : Option Body
    pub claim_id : Option ClaimId
    pub ver_config : Option Config
    pub ver_id : Text
    pub dev_clock_at : ℕ

  -- A stream by what it serves. The constructors of `jsonStream` are the wire values.
  pub data Stream : Type 0 where
    query_stream : Results → Query → Stream
    bytes_stream : Payload → Stream
    blob_stream : Content → Stream
    head_json : Text → Stream
    branch_json : Text → Text → ℕ → ℕ → Stream
    archive_json : Text → ℕ → ℕ → ℕ → Stream
    branches_json : List (Text × Text) → Stream
    health_json : Text → Option Text → Stream
    subject_json : Text → List Text → List Text → Stream
    layers_json : List Layer → Stream
    clock_json : ℕ → Stream
    report_json : Report → Stream
    reports_json : List Report → Stream
    empty_json : Stream
    contribution_json : Text → List Text → Stream

-- `Core`: what a server was assembled from. The signer is its identity, and a missing port is false
-- or none.
pub record Server : Type 0 where
  pub auth : BackendSet
  pub access : Checker
  pub has_sequencer : Bool
  pub signer : Option Text
  pub layer_info : List Layer
  pub has_dev_clock : Bool
  pub version : Text

-- What a request runs on: the library's world, the registry of runs, the dev clock and the time,
-- and the fields of the request that the core fills in.
pub record Exchange (R : Ranke) : Type 0 where
  pub world : R.World
  pub runs : Registry
  pub clock : ℕ
  pub now : ℕ
  pub principal : Principal
  pub report : List Line
