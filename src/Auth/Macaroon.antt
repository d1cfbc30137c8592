-- ===== src/Auth/Macaroon.antt =====
-- adapters/auth/macaroon/macaroon.go: macaroons over the macaroon library, whose decoding and
-- verification are parameters.
pub mod Laws
use ranke_db.Base.{
  Bool, true, Option, none, some, List, [], ◌∷◌, ◌++◌, Text, text_eq, Result, ok, err,
  if◌then◌else◌,
}
use ranke_db.Errors.{Fault, fault, unauthenticated}
use ranke_db.Access.Grant.{Grant, parse_grant}
use ranke_db.Access.Checker.{Principal}

-- `checkCaveat` as a step on the caveats collected so far; none is its error
unfoldable pub check_caveat : List Grant → Text → Option (List Grant)
check_caveat caveats condition = elim (parse_grant condition) [
  | err _ ↦ none
  | ok g ↦ some (caveats ++ (g ∷ []))
]

-- What the backend calls of the library: `decode` is `Base64Decode` with `UnmarshalBinary`, and
-- `verify` runs a check on a state through the macaroon's first-party caveats; none is an error.
pub record Library : Type 1 where
  pub Macaroon : Type 0
  pub decode : Text → Option Macaroon
  pub id : Macaroon → Text
  pub verify :
      Text → (List Grant → Text → Option (List Grant)) → List Grant → Macaroon → Option (List Grant)

module _ (L : Library) where
  open L use {Macaroon, decode, id, verify}

  -- `Authenticate`
  unfoldable pub authenticate_macaroon : Text → Text → Result Fault Principal
  authenticate_macaroon root_key token = elim (decode token) [
    | none ↦ err (fault unauthenticated)
    | some m ↦ elim (verify root_key check_caveat [] m) [
      | none ↦ err (fault unauthenticated)
      | some caveats ↦
          if text_eq (id m) []
          then err (fault unauthenticated)
          else ok (record { account = id m; caveats = caveats })
    ]
  ]
