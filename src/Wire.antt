-- ===== src/Wire.antt =====
-- What a response carries between internal/core/serve.go and client/seq.go: the kinds of a query's
-- result, and the encoders and decoders of ranke-go, encoding/json and fxamacker/cbor as a parameter.
-- A body is the list of its bytes. The children hold the two ends and what joins them.
pub mod Writer
pub mod Serve
pub mod Body
pub mod Split
pub mod Records
pub mod JsonSequence
pub mod CborSequence
pub mod Laws
pub mod Reading
pub mod RoundTrip
pub mod Samples
mod Tests
use ranke_db.Base.{ℕ, Option, none, some, List, Text, Result, text}
use ranke_db.Errors.{Fault}
use ranke_db.Core.Library.{Ranke}
use ranke_db.Core.Values.{Stream}

-- the media types
abbrev pub media_json : Text
media_json = text "application/json"

abbrev pub media_json_seq : Text
media_json_seq = text "application/json-seq"

abbrev pub media_cbor : Text
media_cbor = text "application/cbor"

abbrev pub media_cbor_seq : Text
media_cbor_seq = text "application/cbor-seq"

abbrev pub media_blob : Text
media_blob = text "application/octet-stream"

-- RFC 7464's record separator
abbrev pub record_separator : ℕ
record_separator = 0x1e

-- ranke-go's `ResultEncoding` of the wire
pub data Encoding : Type 0 where
  result_json result_cbor : Encoding

-- what `json.Unmarshal` makes of a text: of an object the names of its members, of a value that is
-- neither a string, an array nor an object nothing
mutual
  pub data Json : Type 0 where
    string : Text → Json
    array : Items → Json
    object : List Text → Json
    scalar : Json

  pub data Items : Type 0 where
    no_items : Items
    item : Json → Items → Items

-- what `Decode` of a `cbor.Decoder` makes of its input and of how that ends: the end, an item and what
-- follows, a failure
pub data Step : Type 0 where
  ended : Step
  read_item : Text → Text → Step
  failed : Fault → Step

module _ (R : Ranke) (Report : Type 0) where
  -- ranke-go's `QueryResult` by its `Kind`; a native kind carries no bytes
  pub data QueryResult : Type 0 where
    claim_encoded : Text → QueryResult
    path_encoded : List Text → QueryResult
    claim_envelope : Text → Option R.Claim → QueryResult
    path_envelope : List Text → QueryResult
    claim_id : R.ClaimId → QueryResult
    path_id : List R.ClaimId → QueryResult
    report : Report → QueryResult
    native : QueryResult

  -- a value that the server marshals as one record of a sequence
  pub data Value : Type 0 where
    id_value : Text → Value
    ids_value : List Text → Value
    report_value : Report → Value

pub record Codec (R : Ranke) : Type 1 where
  -- ranke-go's `QueryReport`
  pub Report : Type 0
  -- what a `ResultStream` yields: its results, then `Err`, then `Report`
  pub results : R.Results → List (QueryResult R Report)
  pub failure : R.Results → Option Fault
  pub final_report : R.Results → Option Report
  -- the encoding that a query asks for, which the core has set
  pub encoding : R.Query → Encoding
  -- the bytes of a payload, the bytes of a claim's content and how reading them ends
  pub payload_bytes : R.Payload → Text
  pub content_bytes : R.Content → List Text
  pub content_failure : R.Content → Option Fault
  -- `json.Marshal` and `ranke.MarshalCBOR` of a record, `json.Marshal` of a stream's one value
  pub marshal : Encoding → Value R Report → Result Fault Text
  pub marshal_stream : Stream R → Result Fault Text
  -- the decoders of the client, and `mime.ParseMediaType`
  pub unmarshal_json : Text → Result Fault Json
  pub media_type_of : Text → Option Text
  pub next_item : Text → Option Fault → Step
  pub unmarshal_text : Text → Result Fault Text
  pub unmarshal_texts : Text → Result Fault (List Text)
  pub unmarshal_report : Encoding → Text → Result Fault Report
  pub parse_id : Text → Result Fault R.ClaimId
  pub hash_content : Text → Result Fault R.ClaimId
  pub decode_claim : R.ClaimId → Text → Result Fault R.Claim
