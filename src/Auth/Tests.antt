-- ===== src/Auth/Tests.antt =====
-- Credentials at concrete inputs.
use ranke_db.Base.{
  ℕ, ◌≡◌, ◌≢◌, ◌≤◌, ◌↔◌, refl, true, none, some, List, [], ◌∷◌, Text, text, text_eq, fields,
  is_space, has_prefix, ok, err, if◌then◌else◌,
}
use ranke_db.Base.Dict.{Dict, lookup, insert}
use ranke_db.Errors.{fault, unauthenticated}
use ranke_db.Access.Grant.{Grant, parse_grant, add_letters, bit, check_glob, branch_glob}
use ranke_db.Access.Checker.{Principal}
use ranke_db.Auth.{
  Credential, Backend, BackendSet, scheme_none, scheme_bearer, add_backend, add_backends, new_set,
  authenticate, new_no_auth,
}
use ranke_db.Auth.Dispatch.{backend_of, authenticate-new_set}
use ranke_db.Auth.ApiKey.{
  min_key_length, byte_length, to_lower, is_digest, KeyEntry, add_keys, new_api_key,
  authenticate_key,
}
use ranke_db.Auth.ApiKey.Laws.{account_for, authenticate_key_iff, authenticate_key-ne-nil}
use ranke_db.Auth.Macaroon.{Library, check_caveat, authenticate_macaroon}
use ranke_db.Auth.Macaroon.Laws.{
  run_checks, Verifies, IsAttenuated, authenticate_macaroon-IsAttenuated,
}
use ranke_db.Auth.Jwt.{
  Scalar, Claim, as_string, claim_values, AccountRule, contains, first_rule, account_of, Jose,
  JwtAuth, key_for, admit, authenticate_jwt, read_rules, account_rules,
}
use ranke_db.Auth.Jwt.Exact.{IsVouched, authenticate_jwt_iff}
use ranke_db.Auth.Jwt.Laws.{authenticate_jwt-ne-nil, read_rules-IsNamed}

abbrev alice : Principal
alice = record { account = text "alice"; caveats = [] }

abbrev open_door : Backend
open_door = record { scheme = scheme_none; authenticate = λ _. ok alice }

abbrev bearer : Backend
bearer = record {
  scheme = scheme_bearer;
  authenticate = λ token. ok (record { account = token; caveats = [] });
}

abbrev both : BackendSet
both = record { by_scheme = (scheme_bearer, bearer) ∷ []; no_auth = some open_door }

both_built : new_set (open_door ∷ bearer ∷ []) ≡ ok both
unfolding new_set add_backends add_backend lookup insert text_eq
both_built = refl

abbrev cred : Credential
cred = record { scheme = scheme_bearer; token = text "bob" }

authenticate-new_set_example :
    authenticate both cred ≡ elim (backend_of scheme_bearer (open_door ∷ bearer ∷ [])) [
      | none ↦ err (fault unauthenticated)
      | some a ↦ a.authenticate (if text_eq scheme_bearer scheme_none then [] else text "bob")
    ]
authenticate-new_set_example = authenticate-new_set (open_door ∷ bearer ∷ []) both cred both_built

anonymous :
    authenticate
      (record both { no_auth = some (new_no_auth none) })
      (record { scheme = []; token = [] })
    ≡ ok (record { account = text "anonymous"; caveats = [] })
unfolding authenticate new_no_auth text_eq
anonymous = refl

abbrev digest : Text
digest = text "00000000000000000000000000000000000000000000000000000000000000Ab"

abbrev low_digest : Text
low_digest = text "00000000000000000000000000000000000000000000000000000000000000ab"

abbrev entries : List KeyEntry
entries = record { account = text "alice"; sha256 = digest } ∷ []

abbrev keys : Dict Text
keys = (low_digest, text "alice") ∷ []

keys_built : new_api_key entries ≡ ok keys
unfolding new_api_key add_keys to_lower is_digest lookup insert text_eq
keys_built = refl

abbrev constant_hash : Text → Text
constant_hash _ = low_digest

authenticate_key_iff_example :
    (authenticate_key constant_hash keys (text "0123456789abcdef") ≡ ok alice) ↔ (
      (min_key_length ≤ byte_length (text "0123456789abcdef"))
      × (account_for low_digest entries ≡ some (text "alice"))
      × (◌≡◌ {A = List Grant} [] []))
authenticate_key_iff_example =
    authenticate_key_iff constant_hash entries keys (text "0123456789abcdef") alice keys_built

key_opens : authenticate_key constant_hash keys (text "0123456789abcdef") ≡ ok alice
unfolding authenticate_key byte_length lookup text_eq
key_opens = refl

authenticate_key-ne-nil_example : text "alice" ≢ []
authenticate_key-ne-nil_example =
    authenticate_key-ne-nil constant_hash entries keys (text "0123456789abcdef") alice keys_built
      key_opens

-- a library whose macaroons are lists of conditions that are always signed
abbrev listed : Library
listed = record {
  Macaroon = List Text;
  decode = λ token. some (token ∷ []);
  id = λ _. text "alice";
  verify = λ root_key check gs m. run_checks check gs m;
}

abbrev listed_verifies : Verifies listed
listed_verifies = record { conditions = λ m. m; checked = λ root_key check gs gs' m h. h }

abbrev limited : Principal
limited = record { account = text "alice"; caveats = record { rights = 2; glob = text "log" } ∷ [] }

limited_enters : authenticate_macaroon listed (text "k") (text "R log") ≡ ok limited
unfolding authenticate_macaroon check_caveat parse_grant fields is_space add_letters bit check_glob
    has_prefix branch_glob text_eq
limited_enters = refl

authenticate_macaroon-IsAttenuated_example :
    IsAttenuated listed listed_verifies (text "k") (text "R log") limited
authenticate_macaroon-IsAttenuated_example =
    authenticate_macaroon-IsAttenuated listed listed_verifies (text "k") (text "R log") limited
      limited_enters

-- a library whose tokens are their own subject
abbrev plain : Jose
plain = record {
  Token = Text;
  Key = ℕ;
  Registered = ℕ;
  parse_signed = λ token algorithm. some token;
  key_ids = λ token. token ∷ [];
  claims = λ token key. some (0, (text "sub", Claim.one (Scalar.str token)) ∷ []);
  validate = λ registered issuer audience. true;
}

abbrev rules : List AccountRule
rules =
    record { value = text "ops"; account = text "admin" }
    ∷ record { value = text "dev"; account = text "alice" }
    ∷ []

rules_read : read_rules ((text "ops", text "admin") ∷ (text "dev", text "alice") ∷ []) ≡ some rules
unfolding read_rules text_eq
rules_read = refl

no_rules : account_rules [] ≡ none
unfolding account_rules read_rules
no_rules = refl

-- the order of the rules decides, and not that of the claim's values
ops_first : first_rule rules (text "dev" ∷ text "ops" ∷ []) ≡ some (text "admin")
unfolding first_rule contains text_eq
ops_first = refl

abbrev jwt : JwtAuth plain
jwt = record {
  algorithm = text "ES256";
  key = some 7;
  jwks = none;
  account_claim = text "sub";
  accounts = rules;
  audience = [];
  issuer = [];
}

dev_enters : authenticate_jwt plain jwt (text "dev") ≡ ok alice
unfolding authenticate_jwt key_for admit account_of claim_values as_string first_rule contains
    lookup text_eq
dev_enters = refl

authenticate_jwt_iff_example :
    (authenticate_jwt plain jwt (text "dev") ≡ ok alice) ↔ IsVouched plain jwt (text "dev") alice
authenticate_jwt_iff_example = authenticate_jwt_iff plain jwt (text "dev") alice

authenticate_jwt-ne-nil_example : text "alice" ≢ []
authenticate_jwt-ne-nil_example =
    authenticate_jwt-ne-nil plain jwt (text "dev") alice
      (read_rules-IsNamed ((text "ops", text "admin") ∷ (text "dev", text "alice") ∷ []) rules
        rules_read)
      dev_enters
