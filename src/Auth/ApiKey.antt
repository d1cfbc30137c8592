-- ===== src/Auth/ApiKey.antt =====
-- adapters/auth/apikey/apikey.go: keys known by their SHA-256 digests. The hash is a parameter that
-- gives the lower-case hexadecimal digest of a token's bytes.
pub mod Laws
use Prim.Native.Nat.{ℕ, ◌+◌, ◌%◌}
use ranke_db.Base.{
  Bool, true, false, not, ◌&&◌, ◌||◌, Option, none, some, List, [], ◌∷◌, map, length, Text, text_eq,
  all, Result, ok, err, leb, ltb, ◌==◌, if◌then◌else◌,
}
use ranke_db.Base.Dict.{Dict, lookup, insert}
use ranke_db.Errors.{Fault, fault, unauthenticated}
use ranke_db.Access.Checker.{Principal}

abbrev pub min_key_length : ℕ
min_key_length = 16

-- the bytes of a code point in UTF-8
abbrev width : ℕ → ℕ
width c = if ltb c 0x80 then 1 else if ltb c 0x800 then 2 else if ltb c 0x10000 then 3 else 4

-- `len` of a string
unfoldable pub byte_length : Text → ℕ
byte_length [] = 0
byte_length (c ∷ s) = width c + byte_length s

-- strings.ToLower, as far as it makes hexadecimal digits: no other character becomes one
unfoldable pub to_lower : ℕ → ℕ
to_lower c = if leb b'A' c && leb c b'Z' then c + 32 else c

-- hex.DecodeString accepts the text and gives 32 bytes
unfoldable pub is_digest : Text → Bool
is_digest s =
    all (λ c. (leb b'0' c && leb c b'9') || (leb b'a' c && leb c b'f')) s && length s == 64

pub record KeyEntry : Type 0 where
  pub account : Text
  pub sha256 : Text

pub data KeyError : Type 0 where
  no_keys empty_account bad_digest duplicate : KeyError

-- the loop of `New`
unfoldable pub add_keys : Dict Text → List KeyEntry → Result KeyError (Dict Text)
add_keys m [] = ok m
add_keys m (e ∷ entries) =
    let digest = map to_lower e.sha256 in
    let rest = add_keys (insert digest e.account m) entries in
    if text_eq e.account []
    then err empty_account
    else if not (is_digest digest)
    then err bad_digest
    else elim (lookup digest m) [ some _ ↦ err duplicate | none ↦ rest ]

-- `New`, given what `Get` returns of each entry
unfoldable pub new_api_key : List KeyEntry → Result KeyError (Dict Text)
new_api_key [] = err no_keys
new_api_key (e ∷ entries) = add_keys [] (e ∷ entries)

-- `Authenticate`
unfoldable pub authenticate_key : (Text → Text) → Dict Text → Text → Result Fault Principal
authenticate_key sha256_hex by_digest token =
    if ltb (byte_length token) min_key_length
    then err (fault unauthenticated)
    else elim (lookup (sha256_hex token) by_digest) [
      | none ↦ err (fault unauthenticated)
      | some account ↦ ok (record { account = account; caveats = [] })
    ]
