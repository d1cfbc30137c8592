-- ===== src/Config/Secrets.antt =====
-- config/section.go (vaultBox) and config/resolve.go: the references to the environment and to the
-- vault, whose secrets are cached. The vault, its construction and the clock are a parameter; two
-- readings of the clock may differ.
use ranke_db.Base.{
  ℕ, ◌+◌, Bool, false, not, Option, none, some, [], ◌∷◌, Text, text, all, cut_prefix, cut_suffix,
  Result, ok, err, ltb, ◌==◌, if◌then◌else◌,
}
use ranke_db.Base.Dict.{Dict, lookup, insert}

pub record VaultPort : Type 1 where
  pub World : Type 0
  pub Store : Type 0
  pub Failure : Type 0
  -- `os.LookupEnv`, which nothing changes here
  pub environment : Text → Option Text
  pub now : World → ℕ
  -- `vault.New` of the vault section, and `Secret`
  pub new_vault : World → Result Failure Store × World
  pub fetch : World → Store → Text → Result Failure Text × World

-- `cached`
pub record Cached : Type 0 where
  pub val : Text
  pub exp : ℕ

-- `vaultTTL`, in seconds
abbrev pub vault_ttl : ℕ
vault_ttl = 120

-- a cached value whose time has not come
abbrev pub is_fresh : Option Cached → ℕ → Bool
is_fresh none at = false
is_fresh (some c) at = ltb at c.exp

abbrev pub served : Option Cached → Text
served none = []
served (some c) = c.val

-- `env(…)` and `vault(…)`: what is between, which is not empty and holds no line feed
unfoldable pub reference : Text → Text → Option Text
unfolding cut_prefix cut_suffix
reference prefix s = elim (cut_prefix s prefix) [
  | none ↦ none
  | some rest ↦ elim (cut_suffix rest (text ")")) [
    | none ↦ none
    | some [] ↦ none
    | some (c ∷ name) ↦ if all (λ d. not (d == 10)) (c ∷ name) then some (c ∷ name) else none
  ]
]

module _ (V : VaultPort) where
  open V use {World, Store, Failure}

  pub data ResolveError : Type 0 where
    no_vault_section unset absent : ResolveError
    vault_failed : Failure → ResolveError

  -- `vaultBox` in its world; `built` is what `once` left, and an empty section is not configured
  pub record Box : Type 0 where
    pub world : World
    pub configured : Bool
    pub built : Option (Result ResolveError Store)
    pub cache : Dict Cached

  -- what the function under `once` does
  unfoldable pub build_store : Box → Result ResolveError Store × Box
  build_store b =
      if not b.configured
      then (err no_vault_section, record b { built = some (err no_vault_section) })
      else elim (V.new_vault b.world).0 [
        | ok v ↦ (ok v, record b { world = (V.new_vault b.world).1; built = some (ok v) })
        | err e ↦ (
          err (vault_failed e),
          record b { world = (V.new_vault b.world).1; built = some (err (vault_failed e)) },
        )
      ]

  -- `get`
  unfoldable pub get_store : Box → Result ResolveError Store × Box
  unfolding build_store
  get_store b = elim b.built [ some r ↦ (r, b) | none ↦ build_store b ]

  -- an error, unless there is a value to serve stale
  abbrev pub or_stale : Option Cached → ResolveError → Result ResolveError Text
  or_stale none e = err e
  or_stale (some prev) e = ok prev.val

  -- what a fetch leaves: the value cached, or the value that was there
  abbrev pub keep_fetched :
      Text → Option Cached → Result Failure Text × World → Box → Result ResolveError Text × Box
  keep_fetched ref prev (err e, w) b = (or_stale prev (vault_failed e), record b { world = w })
  keep_fetched ref prev (ok val, w) b = (
    ok val,
    record b {
      world = w;
      cache = insert ref (record { val = val; exp = V.now w + vault_ttl }) b.cache;
    },
  )

  -- the second half of `secret`, given what `get` returned
  abbrev pub fetch_with :
      Text → Option Cached → Result ResolveError Store × Box → Result ResolveError Text × Box
  fetch_with ref prev (err e, b) = (or_stale prev e, b)
  fetch_with ref prev (ok v, b) = keep_fetched ref prev (V.fetch b.world v ref) b

  -- `secret`; the vault's own section, which has a nil box, is not resolved here
  unfoldable pub secret : Text → Box → Result ResolveError Text × Box
  unfolding get_store
  secret ref b =
      let prev = lookup ref b.cache in
      let fetched = fetch_with ref prev (get_store b) in
      if is_fresh prev (V.now b.world) then (ok (served prev), b) else fetched

  abbrev pub env_value : Option Text → Result ResolveError Text
  env_value none = err unset
  env_value (some v) = ok v

  -- the second test of `resolveValue`
  abbrev pub vault_value : Text → Option Text → Box → Result ResolveError Text × Box
  vault_value s none b = (ok s, b)
  vault_value s (some name) b = secret name b

  -- `resolveValue`
  unfoldable pub resolve_value : Text → Box → Result ResolveError Text × Box
  unfolding reference secret
  resolve_value s b = elim (reference (text "env(") s) [
    | some name ↦ (env_value (V.environment name), b)
    | none ↦ vault_value s (reference (text "vault(") s) b
  ]
