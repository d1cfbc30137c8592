-- ===== src/Rest/Credentials.antt =====
-- adapters/endpoints/rest_http/auth.go: the credential that a request presents; and client/client.go:
-- the header that a client presents one in.
use ranke_db.Base.{
  none, some, List, [], ◌∷◌, ◌++◌, Text, text, text_eq, cut_at, lower, Result, ok, err,
  if◌then◌else◌,
}
use ranke_db.Base.Dict.{Dict, insert}
use ranke_db.Errors.{Fault, fault, ambiguous_credentials}
use ranke_db.Auth.{Credential, scheme_none, scheme_api_key, scheme_bearer, scheme_macaroon}
use ranke_db.Rest.{header}

abbrev pub authorization : Text
authorization = text "Authorization"

abbrev pub x_api_key : Text
x_api_key = text "X-Api-Key"

-- the credential in an Authorization header that is not empty; a space at its start names no scheme
unfoldable pub authorization_credential : Text → Credential
unfolding cut_at lower text_eq
authorization_credential h = elim (cut_at 32 h) [
  | none ↦ record { scheme = scheme_bearer; token = h }
  | some ([], token) ↦ record { scheme = scheme_bearer; token = h }
  | some (c ∷ word, token) ↦ record {
    scheme =
        if text_eq (lower (c ∷ word)) (text "macaroon") then scheme_macaroon else scheme_bearer;
    token = token;
  }
]

-- the credentials of the two headers, in the order in which they are read
abbrev pub presented : Text → Text → List Credential
presented [] [] = []
presented [] (c ∷ key) = record { scheme = scheme_api_key; token = c ∷ key } ∷ []
presented (c ∷ h) [] = authorization_credential (c ∷ h) ∷ []
presented (c ∷ h) (d ∷ key) =
    authorization_credential (c ∷ h) ∷ record { scheme = scheme_api_key; token = d ∷ key } ∷ []

-- the zero credential
abbrev pub no_credential : Credential
no_credential = record { scheme = scheme_none; token = [] }

-- the switch on their number
abbrev pub the_one : List Credential → Result Fault Credential
the_one [] = ok no_credential
the_one (c ∷ []) = ok c
the_one (c ∷ d ∷ cs) = err (fault ambiguous_credentials)

-- `extractCredential`
unfoldable pub extract_credential : Dict Text → Result Fault Credential
unfolding header authorization_credential
extract_credential headers =
    the_one (presented (header headers authorization) (header headers x_api_key))

-- the client's `settings` that name a credential
pub record Settings : Type 0 where
  pub token : Text
  pub api_key : Text
  pub macaroon : Text

-- a header to set, for each credential that is named
abbrev pub named_header : Text → Text → Text → List (Text × Text)
named_header [] name prefix = []
named_header (c ∷ value) name prefix = (name, prefix ++ (c ∷ value)) ∷ []

abbrev pub editors : Settings → List (Text × Text)
editors s =
    named_header s.token authorization (text "Bearer ")
    ++ (named_header s.api_key x_api_key []
        ++ named_header s.macaroon authorization (text "Macaroon "))

-- `ErrCredentials`
pub data ClientFault : Type 0 where
  several_credentials : ClientFault

abbrev pub edit : Dict Text → List (Text × Text) → Result ClientFault (Dict Text)
edit headers [] = ok headers
edit headers ((name, value) ∷ []) = ok (insert name value headers)
edit headers (_ ∷ _ ∷ _) = err several_credentials

-- `settings.credential` with the editor that it returns, applied to a request's headers
unfoldable pub credential_headers : Settings → Dict Text → Result ClientFault (Dict Text)
credential_headers s headers = edit headers (editors s)
