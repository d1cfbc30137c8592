-- ===== src/Config/Tests.antt =====
-- A configuration at concrete inputs: a vault that answers until a time.
use ranke_db.Base.{
  Bool, false, Option, ◌≡◌, refl, ◌⊎◌, ℕ, ◌<◌, ◌≤◌, true, none, some, [], ◌∷◌, Text, text, text_eq,
  any, All, ok, err, succeeds, ltb, if◌then◌else◌, cut_prefix, cut_suffix, has_prefix,
}
use ranke_db.Base.Dict.{lookup, insert}
use ranke_db.Base.Decimal.{}
use ranke_db.Base.{has_prefix, is_space, fields}
use ranke_db.Access.Glob.{match_glob, match_branch}
use ranke_db.Access.Grant.{
  read_right, parse_grant, add_letters, bit, check_glob, is_reserved, branch_glob, allows,
}
use ranke_db.Access.Checker.{
  new_checker, add_accounts, add_specs, held, any_allows, all_allows, Checker, Principal, allow,
}
use ranke_db.Config.{Fields, object, string, no_fields, field}
use ranke_db.Config.Secrets.{
  VaultPort, Box, secret, get_store, build_store, reference, resolve_value,
}
use ranke_db.Config.Cache.{secret_known}
use ranke_db.Config.Strings.{EachField}
use ranke_db.Config.Sections.{find, resolve_fields}
use ranke_db.Config.Resolved.{Resolves, resolve_fields-Resolves}
use ranke_db.Config.Load.{
  endpoint_checker, admitted, check_admits, check_addr, check_endpoints, load, EndpointConfig,
  LaunchConfig, resolve_all, resolve_each, sections_of,
}
use ranke_db.Config.Launch.{allow-endpoint_checker, load_builds}
use ranke_db.Config.References.{resolve_all-Resolves}
use ranke_db.Config.Founding.{ArchivePort, Founding, Launch, found_if_configured}
use ranke_db.Config.Genesis.{found_if_configured_lem}

-- its world is the time, and from 200 on it fails
abbrev vault : VaultPort
vault = record {
  World = ℕ;
  Store = Unit;
  Failure = Unit;
  environment = λ name. none;
  now = λ w. w;
  new_vault = λ w. (ok tt, w);
  fetch = λ w s ref. (if ltb w 200 then ok ref else err tt, w);
}

abbrev empty_box : Box vault
empty_box = record { world = 0; configured = true; built = none; cache = [] }

-- the key was cached at 0 and the time is past its expiry
abbrev stale_box : Box vault
stale_box = record {
  world = 300;
  configured = true;
  built = some (ok tt);
  cache = (text "key", record { val = text "secret"; exp = 120 }) ∷ [];
}

secret_known_example :
    ((300 < 120) × (secret vault (text "key") stale_box ≡ (ok (text "secret"), stale_box)))
    ⊎ ((120 ≤ 300) × ((v : Text) × ((secret vault (text "key") stale_box).0 ≡ ok v)))
unfolding lookup text_eq
secret_known_example =
    secret_known vault (text "key") stale_box (record { val = text "secret"; exp = 120 }) refl

abbrev signer_section : Fields
signer_section = field (text "key") (string (text "vault(key)")) no_fields

resolve_fields-Resolves_example :
    EachField (Resolves vault (resolve_fields vault signer_section empty_box).1) signer_section
unfolding resolve_fields resolve_value reference cut_prefix cut_suffix secret get_store build_store
    lookup insert text_eq
resolve_fields-Resolves_example = resolve_fields-Resolves vault signer_section empty_box refl

abbrev public_endpoint : EndpointConfig
public_endpoint = record { transport = no_fields; auth = []; admit = text "bob" ∷ [] }

abbrev launch : LaunchConfig
launch = record {
  signer = signer_section;
  vault = no_fields;
  storage = no_fields;
  sequencer = no_fields;
  accounts = (text "alice", text "R main" ∷ []) ∷ (text "bob", text "R main" ∷ []) ∷ [];
  endpoints = public_endpoint ∷ [];
}

resolve_all-Resolves_example :
    All (EachField (Resolves vault (resolve_all vault launch empty_box).1)) (sections_of launch)
unfolding resolve_all resolve_each resolve_fields resolve_value reference cut_prefix cut_suffix
    secret get_store build_store lookup insert text_eq
resolve_all-Resolves_example = resolve_all-Resolves vault launch empty_box refl

launch_loads : load launch ≡ none
unfolding load check_endpoints check_admits check_addr find new_checker add_accounts add_specs held
    lookup insert parse_grant fields is_space add_letters bit check_glob has_prefix is_reserved
    branch_glob text_eq
launch_loads = refl

load_builds_example : All (λ ec. succeeds (endpoint_checker launch ec) ≡ true) launch.endpoints
load_builds_example = load_builds launch launch_loads

abbrev public_checker : Checker
public_checker = record {
  accounts = (text "bob", record { rights = 2; glob = text "main" } ∷ []) ∷ [];
}

public_checker_built : endpoint_checker launch public_endpoint ≡ ok public_checker
unfolding endpoint_checker admitted new_checker add_accounts add_specs held lookup insert
    parse_grant fields is_space add_letters bit check_glob has_prefix is_reserved branch_glob
    text_eq
public_checker_built = refl

abbrev bob : Principal
bob = record { account = text "bob"; caveats = [] }

bob_reads : allow public_checker bob read_right (text "main") ≡ true
unfolding allow held lookup any_allows all_allows allows bit match_branch match_glob has_prefix
    text_eq
bob_reads = refl

allow-endpoint_checker_example : any (λ name. text_eq name (text "bob")) (text "bob" ∷ []) ≡ true
allow-endpoint_checker_example =
    allow-endpoint_checker launch public_endpoint public_checker bob read_right (text "main")
      public_checker_built bob_reads

-- an archive that is in genesis until it is founded
abbrev young : ArchivePort
young = record {
  World = Bool;
  ClaimId = Unit;
  PublicKey = Text;
  Failure = Unit;
  in_genesis = λ w. w;
  found = λ w key branch. (ok tt, false);
  head = λ w. ok tt;
  bookmark = λ w. tt;
  branch_fault = λ branch. none;
  pem_block = λ pem. some pem;
  parse_key = λ block. ok block;
  encode_key = λ key. ok key;
  json_text = λ v. [];
}

abbrev founding_section : Fields
founding_section =
    field (text "found")
      (object (
        field (text "branch") (string (text "main"))
          (field (text "pubkey") (string (text "PEM")) no_fields)))
      no_fields

abbrev first_launch : Launch vault young
first_launch = record { box = empty_box; archive = true }

abbrev founded_launch : Launch vault young
founded_launch = (found_if_configured vault young true founding_section first_launch).1

found_if_configured_lem_example :
    ((f : Option (Founding vault young))
      → (found_if_configured vault young true founding_section first_launch).0 ≡ ok f
      → founded_launch.archive ≡ false)
    × (true ≡ false
        → found_if_configured vault young true founding_section first_launch
          ≡ (ok none, first_launch))
found_if_configured_lem_example =
    found_if_configured_lem vault young (λ w key branch id h. refl) founding_section first_launch
