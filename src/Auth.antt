-- ===== src/Auth.antt =====
-- adapters/auth/auth.go: the backends of an endpoint as a set, at most one for each credential
-- scheme. A backend is the interface `Auth`: its scheme and what it makes of a token. The children
-- hold the backends themselves.
pub mod ApiKey
pub mod Macaroon
pub mod Jwt
pub mod Dispatch
mod Tests
use ranke_db.Base.{
  ℕ, Bool, true, false, Option, none, some, List, [], ◌∷◌, Text, text, text_eq, Result, ok, err,
  ◌>>=◌, if◌then◌else◌,
}
use ranke_db.Base.Dict.{Dict, lookup, insert}
use ranke_db.Errors.{Fault, fault, unauthenticated}
use ranke_db.Access.Checker.{Principal}

-- the `Scheme*` constants; no credential is the empty scheme
abbrev pub scheme_none : Text
scheme_none = []

abbrev pub scheme_api_key : Text
scheme_api_key = text "apikey"

abbrev pub scheme_bearer : Text
scheme_bearer = text "bearer"

abbrev pub scheme_macaroon : Text
scheme_macaroon = text "macaroon"

pub record Credential : Type 0 where
  pub scheme : Text
  pub token : Text

pub record Backend : Type 0 where
  pub scheme : Text
  pub authenticate : Text → Result Fault Principal

pub record BackendSet : Type 0 where
  pub by_scheme : Dict Backend
  pub no_auth : Option Backend

pub data SetError : Type 0 where
  multiple_no_auth : SetError
  multiple_backends : Text → SetError

-- one round of the loop of `NewSet`
unfoldable pub add_backend : BackendSet → Backend → Result SetError BackendSet
add_backend s a =
    if text_eq a.scheme scheme_none
    then elim s.no_auth [
      | some _ ↦ err multiple_no_auth
      | none ↦ ok (record s { no_auth = some a })
    ]
    else elim (lookup a.scheme s.by_scheme) [
      | some _ ↦ err (multiple_backends a.scheme)
      | none ↦ ok (record s { by_scheme = insert a.scheme a s.by_scheme })
    ]

unfoldable pub add_backends : BackendSet → List Backend → Result SetError BackendSet
add_backends s [] = ok s
add_backends s (a ∷ auths) = do s' ← add_backend s a; add_backends s' auths

-- `NewSet`
unfoldable pub new_set : List Backend → Result SetError BackendSet
new_set auths = add_backends (record { by_scheme = []; no_auth = none }) auths

-- `Set.Authenticate`
unfoldable pub authenticate : BackendSet → Credential → Result Fault Principal
authenticate s cred =
    if text_eq cred.scheme scheme_none
    then elim s.no_auth [ none ↦ err (fault unauthenticated) | some a ↦ a.authenticate [] ]
    else elim (lookup cred.scheme s.by_scheme) [
      | none ↦ err (fault unauthenticated)
      | some a ↦ a.authenticate cred.token
    ]

-- adapters/auth/noauth: `New`, given the configured subject if there is one, and `Authenticate`
unfoldable pub new_no_auth : Option Text → Backend
new_no_auth subject = record {
  scheme = scheme_none;
  authenticate = λ _. ok (record {
    account = elim subject [
      | none ↦ text "anonymous"
      | some s ↦ if text_eq s [] then text "anonymous" else s
    ];
    caveats = [];
  });
}
