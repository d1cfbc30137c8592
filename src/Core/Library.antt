-- ===== src/Core/Library.antt =====
-- The library ranke-go as the server calls it, and go's stream of a request body: a parameter of the
-- core. A read takes the world, which holds the Universe and the sequencer's head, and may fail; a
-- call that may change the world returns it beside its result, also where it fails.
use ranke_db.Base.{ℕ, Bool, Option, List, Text, Result}
use ranke_db.Errors.{Fault}

-- the library's `WireConstraints`
pub record Constraints : Type 0 where
  pub branches : List Text
  pub referencable : List Text
  pub lifted : List Text
  pub creatable : List Text

pub record Ranke : Type 1 where
  pub World : Type 0
  pub ClaimId : Type 0
  pub Archive : Type 0
  pub Branch : Type 0
  pub Claim : Type 0
  pub Content : Type 0
  pub Payload : Type 0
  pub Query : Type 0
  pub Results : Type 0
  pub Body : Type 0
  pub Opened : Type 0
  pub Verified : Type 0
  pub Mergable : Type 0
  -- the node type of the branch table, `NodeBranches`
  pub node_branches : Text
  -- ids, claims, branches and snapshots
  pub id_text : ClaimId → Text
  pub height : Claim → ℕ
  pub created_at : Claim → ℕ
  pub branch_name : Branch → Text
  pub branch_head : Branch → ClaimId
  pub archive_head : Archive → ClaimId
  pub envelope : Claim → Result Fault Payload
  -- reads
  pub get_archive : World → Result Fault Archive
  pub universe_claim : World → ClaimId → Result Fault Claim
  pub claim_content : World → Claim → Result Fault Content
  pub archive_claim : World → Archive → ClaimId → Result Fault Claim
  pub archive_content : World → Archive → ClaimId → Result Fault Content
  pub get_branch : World → Archive → Text → Result Fault Branch
  pub branch_claim : World → Branch → ClaimId → Result Fault Claim
  pub branch_content : World → Branch → ClaimId → Result Fault Content
  pub get_branches : World → Archive → Result Fault (List Branch)
  pub missing_branches : World → Archive → List Text → Result Fault (List Text)
  -- queries: whether the encoding is one of the wire, the query with the JSON encoding
  pub is_wire_encoded : Query → Bool
  pub as_json : Query → Query
  pub run_query : World → Archive → Query → Result Fault Results
  -- verification: the error that `Verify` returns, if it does
  pub verify : World → Archive → Bool → Option Fault
  -- contributions
  pub wire_constraints : Body → Result Fault Constraints
  pub narrow : Constraints → Constraints → Constraints
  pub new_contribution : World → Constraints → Result Fault Opened × World
  pub add_wire : World → Opened → Body → Result Fault Opened × World
  pub complete_and_verify : World → Opened → Result Fault Verified × World
  pub persist : World → Verified → Result Fault Mergable × World
  pub merge : World → Mergable → Result Fault ClaimId × World
  pub verified_ids : Verified → List ClaimId
