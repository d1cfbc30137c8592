-- ===== src/Auth/Jwt.antt =====
-- adapters/auth/jwt/jwt.go: the bearer backend over the go-jose library, and the rules that map a
-- claim's values to an account. The library's parsing, verification and validation are parameters.
pub mod Laws
pub mod Exact
use ranke_db.Base.{
  ℕ, Bool, true, false, ◌||◌, Option, none, some, List, [], ◌∷◌, Text, text, text_eq, any, Result,
  ok, err, ◌>>=◌, if◌then◌else◌,
}
use ranke_db.Base.Dict.{Dict, lookup}
use ranke_db.Errors.{Fault, fault, unauthenticated}
use ranke_db.Access.Checker.{Principal}

-- a claim of the token's payload, as far as decoding into strings tells values apart
pub data Scalar : Type 0 where
  null other : Scalar
  str : Text → Scalar

pub data Claim : Type 0 where
  one : Scalar → Claim
  list : List Scalar → Claim

-- `json.Unmarshal` into a string: `null` leaves it empty
unfoldable pub as_string : Scalar → Option Text
as_string null = some []
as_string other = none
as_string (str s) = some s

unfoldable pub as_strings : List Scalar → Option (List Text)
as_strings [] = some []
as_strings (x ∷ xs) =
    let rest = as_strings xs in
    elim (as_string x) [
      | none ↦ none
      | some s ↦ elim rest [ none ↦ none | some ss ↦ some (s ∷ ss) ]
    ]

-- `claimValues`, none for its errors
unfoldable pub claim_values : Dict Claim → Text → Option (List Text)
claim_values raw name = elim (lookup name raw) [
  | none ↦ none
  | some c ↦ elim c [
    | one x ↦ elim (as_string x) [ none ↦ none | some s ↦ some (s ∷ []) ]
    | list xs ↦ as_strings xs
  ]
]

-- `stringClaim`, none for its errors
unfoldable pub string_claim : Dict Claim → Text → Option Text
string_claim raw name = elim (lookup name raw) [
  | none ↦ none
  | some c ↦ elim c [
    | one x ↦ elim (as_string x) [ none ↦ none | some s ↦ if text_eq s [] then none else some s ]
    | list xs ↦ none
  ]
]

pub record AccountRule : Type 0 where
  pub value : Text
  pub account : Text

-- the loop of `accountRules`, given what `Get` returns for "value" and "account" of each entry; none
-- for its errors
unfoldable pub read_rules : List (Text × Text) → Option (List AccountRule)
read_rules [] = some []
read_rules ((value, account) ∷ entries) =
    let rest = read_rules entries in
    if text_eq value [] || text_eq account [] then none else elim rest [
      | none ↦ none
      | some rules ↦ some (record { value = value; account = account } ∷ rules)
    ]

-- `accountRules`
unfoldable pub account_rules : List (Text × Text) → Option (List AccountRule)
account_rules entries = elim (read_rules entries) [
  | none ↦ none
  | some rules ↦ elim rules [ [] ↦ none | r ∷ rs ↦ some (r ∷ rs) ]
]

-- `slices.Contains`
unfoldable pub contains : List Text → Text → Bool
contains [] v = false
contains (x ∷ xs) v = text_eq x v || contains xs v

-- the loop over the rules in `account`
unfoldable pub first_rule : List AccountRule → List Text → Option Text
first_rule [] values = none
first_rule (r ∷ rules) values =
    let rest = first_rule rules values in if contains values r.value then some r.account else rest

-- `account`, none for its errors
unfoldable pub account_of : List AccountRule → Text → Dict Claim → Option Text
account_of [] name raw = string_claim raw name
account_of (r ∷ rules) name raw = elim (claim_values raw name) [
  | none ↦ none
  | some values ↦ first_rule (r ∷ rules) values
]

-- What the backend calls of go-jose: parsing for one algorithm, the key ids of the headers, the
-- verified claims and their validation against an issuer and an audience, empty for no check.
pub record Jose : Type 1 where
  pub Token : Type 0
  pub Key : Type 0
  pub Registered : Type 0
  pub parse_signed : Text → Text → Option Token
  pub key_ids : Token → List Text
  pub claims : Token → Option Key → Option (Registered × Dict Claim)
  pub validate : Registered → Text → Text → Bool

module _ (J : Jose) where
  open J use {Token, Key, Registered, parse_signed, key_ids, claims, validate}

  -- `Auth`; a JWKS source is what its cached set holds for a key id
  pub record JwtAuth : Type 0 where
    pub algorithm : Text
    pub key : Option Key
    pub jwks : Option (Text → List Key)
    pub account_claim : Text
    pub accounts : List AccountRule
    pub audience : Text
    pub issuer : Text

  -- `jwksSource.key`
  unfoldable pub jwks_key : List Key → Option Key
  jwks_key [] = none
  jwks_key (k ∷ ks) = some k

  -- the key that `Authenticate` verifies with: none where it gives up first
  unfoldable pub key_for : JwtAuth → Token → Option (Option Key)
  key_for a parsed = elim a.jwks [
    | none ↦ some a.key
    | some source ↦ elim (key_ids parsed) [
      | [] ↦ none
      | kid ∷ _ ↦ elim (jwks_key (source kid)) [ none ↦ none | some k ↦ some (some k) ]
    ]
  ]

  abbrev principal_of : Option Text → Result Fault Principal
  principal_of none = err (fault unauthenticated)
  principal_of (some account) = ok (record { account = account; caveats = [] })

  -- `Authenticate` once the claims are verified
  unfoldable pub admit : JwtAuth → Registered × Dict Claim → Result Fault Principal
  admit a (registered, raw) =
      if validate registered a.issuer a.audience
      then principal_of (account_of a.accounts a.account_claim raw)
      else err (fault unauthenticated)

  -- `Authenticate`
  unfoldable pub authenticate_jwt : JwtAuth → Text → Result Fault Principal
  authenticate_jwt a token = elim (parse_signed token a.algorithm) [
    | none ↦ err (fault unauthenticated)
    | some parsed ↦ elim (key_for a parsed) [
      | none ↦ err (fault unauthenticated)
      | some key ↦ elim (claims parsed key) [
        | none ↦ err (fault unauthenticated)
        | some c ↦ admit a c
      ]
    ]
  ]
