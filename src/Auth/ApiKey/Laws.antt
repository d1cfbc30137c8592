-- ===== src/Auth/ApiKey/Laws.antt =====
-- A key authenticates exactly as the entry with its digest says.
use ranke_db.Base.{
  ◌≡◌, ◌≢◌, ◌≤◌, ◌↔◌, inl, inr, Option, none, some, List, [], ◌∷◌, map, Text, text_eq, text_eq_iff,
  ok, arith, Bool-cases, if◌then◌else◌,
}
use ranke_db.Base.Dict.{Dict, lookup, insert, lookup-insert}
use ranke_db.Access.Checker.{Principal}
use ranke_db.Auth.ApiKey.{
  min_key_length, byte_length, to_lower, KeyEntry, add_keys, new_api_key, authenticate_key,
}

-- the account of the first entry with a digest
abbrev pub account_for : Text → List KeyEntry → Option Text
account_for digest [] = none
account_for digest (e ∷ entries) =
    let rest = account_for digest entries in
    if text_eq (map to_lower e.sha256) digest then some e.account else rest

abbrev or_else : Option Text → Option Text → Option Text
or_else none b = b
or_else (some a) b = some a

lookup-add_keys :
    (entries : List KeyEntry) (m m' : Dict Text) (d : Text)
    → add_keys m entries ≡ ok m'
    → lookup d m' ≡ or_else (lookup d m) (account_for d entries)
unfolding add_keys
lookup-add_keys [] m m' d h = ground arith
lookup-add_keys (e ∷ entries) m m' d h = ground (
  arith,
  text_eq_iff (map to_lower e.sha256) d,
  lookup-insert (map to_lower e.sha256) d e.account m,
  lookup-add_keys entries (insert (map to_lower e.sha256) e.account m) m' d,
)

account_for-ne-nil :
    (entries : List KeyEntry) (m m' : Dict Text) (d account : Text)
    → add_keys m entries ≡ ok m'
    → account_for d entries ≡ some account
    → account ≢ []
unfolding add_keys
account_for-ne-nil [] m m' d account h a = cc
account_for-ne-nil (e ∷ entries) m m' d account h a =
    elim (Bool-cases (text_eq (map to_lower e.sha256) d)) [
      | inl s ↦ λ q. ground (arith, text_eq_iff e.account [])
      | inr s ↦
          account_for-ne-nil entries (insert (map to_lower e.sha256) e.account m) m' d account
            (ground arith) (ground arith)
    ]

lookup-new_api_key :
    (entries : List KeyEntry) (m : Dict Text) (d : Text)
    → new_api_key entries ≡ ok m
    → lookup d m ≡ account_for d entries
unfolding new_api_key lookup
lookup-new_api_key [] m d h = cc
lookup-new_api_key (e ∷ entries) m d h = ground (arith, lookup-add_keys (e ∷ entries) [] m d h)

-- With keys that were accepted a token authenticates as an account exactly if it has at least 16
-- bytes and the entry with its digest, read in lower case, names that account; the principal has no
-- caveats.
pub authenticate_key_iff :
    (sha256_hex : Text → Text) (entries : List KeyEntry) (m : Dict Text) (token : Text)
    (p : Principal)
    → new_api_key entries ≡ ok m
    → (authenticate_key sha256_hex m token ≡ ok p) ↔ (
        (min_key_length ≤ byte_length token)
        × (account_for (sha256_hex token) entries ≡ some p.account)
        × (p.caveats ≡ []))
unfolding authenticate_key
authenticate_key_iff sha256_hex entries m token p h =
    let e = lookup-new_api_key entries m (sha256_hex token) h in
    (λ a. (ground arith, ground arith, ground arith), λ a. ground arith)

-- No account of an accepted key is empty.
pub authenticate_key-ne-nil :
    (sha256_hex : Text → Text) (entries : List KeyEntry) (m : Dict Text) (token : Text)
    (p : Principal)
    → new_api_key entries ≡ ok m
    → authenticate_key sha256_hex m token ≡ ok p
    → p.account ≢ []
unfolding new_api_key
authenticate_key-ne-nil sha256_hex [] m token p h a = cc
authenticate_key-ne-nil sha256_hex (e ∷ entries) m token p h a =
    account_for-ne-nil (e ∷ entries) [] m (sha256_hex token) p.account h
      ((authenticate_key_iff sha256_hex (e ∷ entries) m token p h).0 a).1
