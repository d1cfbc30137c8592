-- ===== src/Rest/Presenting.antt =====
-- client/client.go and adapters/endpoints/rest_http/auth.go: the credential that the client presents
-- is the one that the endpoint extracts.
use ranke_db.Base.{
  ◌≡◌, ap, ◌∙◌, Result, Option, none, some, [], ◌∷◌, ◌++◌, Text, text, text_eq, cut_at, lower, ok,
  arith, if◌then◌else◌,
}
use mathlib.Core.Path.{ap₂}
use ranke_db.Base.Dict.{Dict, insert, lookup-insert}
use ranke_db.Auth.{Credential, scheme_api_key, scheme_bearer, scheme_macaroon}
use ranke_db.Rest.{header}
use ranke_db.Rest.Credentials.{
  authorization, x_api_key, authorization_credential, presented, the_one, no_credential,
  extract_credential, Settings, named_header, edit, ClientFault, credential_headers,
}

-- the credential that the settings name, where they name one at most
abbrev pub intended : Settings → Credential
intended s = elim s.token [
  | c ∷ token ↦ record { scheme = scheme_bearer; token = c ∷ token }
  | [] ↦ elim s.api_key [
    | c ∷ key ↦ record { scheme = scheme_api_key; token = c ∷ key }
    | [] ↦ elim s.macaroon [
      | c ∷ macaroon ↦ record { scheme = scheme_macaroon; token = c ∷ macaroon }
      | [] ↦ no_credential
    ]
  ]
]

header-insert :
    (j k v : Text) (m : Dict Text)
    → header (insert k v m) j ≡ (if text_eq k j then v else header m j)
unfolding header
header-insert j k v m =
    ap (λ (o : Option Text). elim o [ none ↦ [] | some u ↦ u ]) (lookup-insert k j v m)
    ∙ ground arith

-- what is extracted where one of the two headers is set
extract-insert :
    (name v h k : Text) (headers : Dict Text)
    → header (insert name v headers) authorization ≡ h
    → header (insert name v headers) x_api_key ≡ k
    → extract_credential (insert name v headers) ≡ the_one (presented h k)
unfolding extract_credential
extract-insert name v h k headers p q = ap₂ (λ a b. the_one (presented a b)) p q

is_ok :
    {m : Dict Text} (h : Dict Text) → ◌≡◌ {A = Result ClientFault (Dict Text)} (ok m) (ok h) → h ≡ m
is_ok h p = cc

module _ (headers : Dict Text) (unset : header headers authorization ≡ [])
    (unkeyed : header headers x_api_key ≡ []) where
  extract_authorization :
      (v : Text) → extract_credential (insert authorization v headers) ≡ the_one (presented v [])
  unfolding text_eq
  extract_authorization v =
      extract-insert authorization v v [] headers
        (header-insert authorization authorization v headers)
        (header-insert x_api_key authorization v headers ∙ unkeyed)

  extract_x_api_key :
      (v : Text) → extract_credential (insert x_api_key v headers) ≡ the_one (presented [] v)
  unfolding text_eq
  extract_x_api_key v =
      extract-insert x_api_key v [] v headers
        (header-insert authorization x_api_key v headers ∙ unset)
        (header-insert x_api_key x_api_key v headers)

  extract_edited :
      (t k m : Text) (h : Dict Text)
      → edit headers (
          named_header t authorization (text "Bearer ")
          ++ (named_header k x_api_key [] ++ named_header m authorization (text "Macaroon ")))
        ≡ ok h
      → extract_credential h ≡ ok (intended (record { token = t; api_key = k; macaroon = m }))
  unfolding extract_credential authorization_credential cut_at lower text_eq
  extract_edited [] [] [] h p =
      ap extract_credential (is_ok h p) ∙ ap₂ (λ a b. the_one (presented a b)) unset unkeyed
  extract_edited (c ∷ t) [] [] h p =
      ap extract_credential (is_ok h p) ∙ extract_authorization (text "Bearer " ++ (c ∷ t))
  extract_edited [] (c ∷ k) [] h p = ap extract_credential (is_ok h p) ∙ extract_x_api_key (c ∷ k)
  extract_edited [] [] (c ∷ m) h p =
      ap extract_credential (is_ok h p) ∙ extract_authorization (text "Macaroon " ++ (c ∷ m))
  extract_edited (c ∷ t) (d ∷ k) m h p = cc
  extract_edited (c ∷ t) [] (d ∷ m) h p = cc
  extract_edited [] (c ∷ k) (d ∷ m) h p = cc

  -- A client that is made with one credential at most presents it so that the endpoint extracts that
  -- scheme and that token: for requests that the caller set no credential header on.
  pub extract_credential-credential_headers :
      (s : Settings) (h : Dict Text)
      → credential_headers s headers ≡ ok h
      → extract_credential h ≡ ok (intended s)
  unfolding credential_headers
  extract_credential-credential_headers s h p = extract_edited s.token s.api_key s.macaroon h p
