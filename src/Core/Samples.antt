-- ===== src/Core/Samples.antt =====
-- A library whose world is the number of merges, with a server, a principal and requests on it.
use ranke_db.Base.{
  ℕ, ◌+◌, true, false, none, some, List, [], ◌∷◌, Text, text, text_eq, Result, ok, err,
  if◌then◌else◌, ◌==◌,
}
use ranke_db.Errors.{Fault, fault, lib_branch_not_found, lib_not_found}
use ranke_db.Access.Grant.{Grant}
use ranke_db.Access.Checker.{Principal}
use ranke_db.Auth.{Credential, Backend, scheme_bearer}
use ranke_db.Verification.{new_registry}
use ranke_db.Core.Library.{Ranke, Constraints}
use ranke_db.Core.Values.{claim_get, claim_contribute, Request, Server, Exchange}
use ranke_db.Core.Contribute.{}
use ranke_db.Core.Gate.{}

abbrev pub known_branch : Text → Result Fault Text
known_branch name = if text_eq name (text "main") then ok name else err (fault lib_branch_not_found)

abbrev pub merge_count : Ranke
merge_count = record {
  World = ℕ;
  ClaimId = ℕ;
  Archive = ℕ;
  Branch = Text;
  Claim = ℕ;
  Content = ℕ;
  Payload = ℕ;
  Query = ℕ;
  Results = ℕ;
  Body = Constraints;
  Opened = Constraints;
  Verified = List ℕ;
  Mergable = List ℕ;
  node_branches = text "branches";
  id_text = λ id. id ∷ [];
  height = λ claim. claim;
  created_at = λ claim. claim;
  branch_name = λ b. b;
  branch_head = λ b. 0;
  archive_head = λ a. a;
  envelope = λ claim. ok claim;
  get_archive = λ w. ok w;
  universe_claim = λ w id. ok id;
  claim_content = λ w claim. ok claim;
  archive_claim = λ w a id. ok id;
  archive_content = λ w a id. ok id;
  get_branch = λ w a name. known_branch name;
  branch_claim = λ w b id. if id == 9 then err (fault lib_not_found) else ok id;
  branch_content = λ w b id. ok id;
  get_branches = λ w a. ok (text "main" ∷ []);
  missing_branches = λ w a names. ok [];
  is_wire_encoded = λ q. true;
  as_json = λ q. q;
  run_query = λ w a q. ok q;
  verify = λ w a complete. none;
  wire_constraints = λ body. ok body;
  narrow = λ asked offered. offered;
  new_contribution = λ w bounds. (ok bounds, w);
  add_wire = λ w opened body. (ok opened, w);
  complete_and_verify = λ w opened. (ok (5 ∷ 6 ∷ []), w);
  persist = λ w verified. (ok verified, w);
  merge = λ w mergable. (ok (w + 1), w + 1);
  verified_ids = λ verified. verified;
}

abbrev pub by_name : Backend
by_name = record {
  scheme = scheme_bearer;
  authenticate = λ token. ok (record { account = token; caveats = [] });
}

-- C and R on main
abbrev pub grants_of_bob : List Grant
grants_of_bob =
    record { rights = 1; glob = text "main" } ∷ record { rights = 2; glob = text "main" } ∷ []

abbrev pub server : Server
server = record {
  auth = record { by_scheme = (scheme_bearer, by_name) ∷ []; no_auth = none };
  access = record { accounts = (text "bob", grants_of_bob) ∷ [] };
  has_sequencer = true;
  signer = none;
  layer_info = [];
  has_dev_clock = false;
  version = text "1";
}

abbrev pub bob : Credential
bob = record { scheme = scheme_bearer; token = text "bob" }

abbrev pub bobs : Principal
bobs = record { account = text "bob"; caveats = [] }

abbrev pub get_main : Request merge_count
get_main = record {
  credential = bob;
  op = claim_get;
  branch = text "main";
  query = none;
  body = none;
  claim_id = some 7;
  ver_config = none;
  ver_id = [];
  dev_clock_at = 0;
}

abbrev pub asked : Constraints
asked = record { branches = text "main" ∷ []; referencable = []; lifted = []; creatable = [] }

abbrev pub put_main : Request merge_count
put_main = record get_main { op = claim_contribute; branch = []; body = some asked }

abbrev pub exchange : Exchange merge_count
exchange = record {
  world = 3;
  runs = new_registry 1;
  clock = 0;
  now = 0;
  principal = record { account = []; caveats = [] };
  report = [];
}
