-- ===== src/Config/Cache.antt =====
-- config/section.go: what the cache of secrets promises.
use ranke_db.Base.{
  ◌≡◌, refl, sym, ap, ◌∙◌, inl, inr, ◌⊎◌, ◌<◌, ◌≤◌, Option, none, some, Text, text_eq, text_eq_refl,
  Result, ok, err, ltb, arith, Bool-cases, Option-cases, Result-cases,
}
use mathlib.Core.Path.{subst}
use ranke_db.Base.Dict.{Dict, lookup, insert, lookup-insert}
use ranke_db.Config.Secrets.{
  VaultPort, Cached, Box, ResolveError, build_store, get_store, keep_fetched, fetch_with, is_fresh,
  secret,
}

module _ (V : VaultPort) where
  -- a secret that the cache holds, fresh or not
  abbrev pub IsHeld : Text → Dict Cached → Type 0
  IsHeld ref m = (c : Cached) × (lookup ref m ≡ some c)

  abbrev pub Has : Text → Box V → Type 0
  Has ref b = IsHeld ref b.cache

  abbrev pub Grows : Box V → Box V → Type 0
  Grows b d = (ref : Text) → Has ref b → Has ref d

  insert-IsHeld :
      (ref j : Text) (c : Cached) (m : Dict Cached) → IsHeld j m → IsHeld j (insert ref c m)
  insert-IsHeld ref j c m (p, h) = elim (Bool-cases (text_eq ref j)) [
    | inl t ↦ (c, lookup-insert ref j c m ∙ rw (t) refl)
    | inr t ↦ (p, lookup-insert ref j c m ∙ rw (t) h)
  ]

  insert_self : (ref : Text) (c : Cached) (m : Dict Cached) → IsHeld ref (insert ref c m)
  insert_self ref c m = (c, lookup-insert ref ref c m ∙ rw (text_eq_refl ref) refl)

  keep-Grows :
      (ref : Text) (prev : Option Cached) (r : Result V.Failure Text × V.World) (b : Box V)
      → Grows b (keep_fetched V ref prev r b).1
  keep-Grows ref prev (err e, w) b j h = h
  keep-Grows ref prev (ok val, w) b j h = insert-IsHeld ref j _ b.cache h

  fetch-Grows :
      (ref : Text) (prev : Option Cached) (g : Result (ResolveError V) V.Store × Box V)
      → Grows g.1 (fetch_with V ref prev g).1
  fetch-Grows ref prev (err e, b) j h = h
  fetch-Grows ref prev (ok v, b) j h = keep-Grows ref prev (V.fetch b.world v ref) b j h

  get_store-cache : (b : Box V) → (get_store V b).1.cache ≡ b.cache
  unfolding get_store build_store
  get_store-cache b = elim (Option-cases b.built) [
    | inr (r, h) ↦ rw (h, get_store) refl
    | inl h ↦ elim (Bool-cases b.configured) [
      | inr k ↦ rw (h, get_store) (rw (k) refl)
      | inl k ↦ elim (Result-cases (V.new_vault b.world).0) [
        | inl (e, g) ↦ rw (h, get_store) (rw (k) (rw (g) refl))
        | inr (v, g) ↦ rw (h, get_store) (rw (k) (rw (g) refl))
      ]
    ]
  ]

  get_store-Grows : (b : Box V) → Grows b (get_store V b).1
  get_store-Grows b ref (c, h) = (c, ap (lookup ref) (get_store-cache b) ∙ h)

  pub secret-Grows : (ref : Text) (b : Box V) → Grows b (secret V ref b).1
  unfolding secret
  secret-Grows ref b j h = elim (Bool-cases (is_fresh (lookup ref b.cache) (V.now b.world))) [
    | inl e ↦ rw (e, secret) h
    | inr e ↦
        rw (e, secret)
          (fetch-Grows ref (lookup ref b.cache) (get_store V b) j (get_store-Grows b j h))
  ]

  keep_known :
      (ref : Text) (c : Cached) (r : Result V.Failure Text × V.World) (b : Box V)
      → (v : Text) × ((keep_fetched V ref (some c) r b).0 ≡ ok v)
  keep_known ref c (err e, w) b = (c.val, refl)
  keep_known ref c (ok val, w) b = (val, refl)

  fetch_known :
      (ref : Text) (c : Cached) (g : Result (ResolveError V) V.Store × Box V)
      → (v : Text) × ((fetch_with V ref (some c) g).0 ≡ ok v)
  fetch_known ref c (err e, b) = (c.val, refl)
  fetch_known ref c (ok v, b) = keep_known ref c (V.fetch b.world v ref) b

  -- A secret that was fetched once is served ever after, whatever becomes of the vault: with the
  -- cached value and nothing else done while that is fresh, and then with a value at any rate.
  pub secret_known :
      (ref : Text) (b : Box V) (c : Cached)
      → lookup ref b.cache ≡ some c
      → ((V.now b.world < c.exp) × (secret V ref b ≡ (ok c.val, b)))
        ⊎ ((c.exp ≤ V.now b.world) × ((v : Text) × ((secret V ref b).0 ≡ ok v)))
  unfolding secret
  secret_known ref b c h = elim (Bool-cases (ltb (V.now b.world) c.exp)) [
    | inl e ↦ inl (ground arith, rw (h, secret) (rw (e) refl))
    | inr e ↦
        let (v, k) = fetch_known ref c (get_store V b) in
        inr (ground arith, (v, rw (h, secret) (rw (e) k)))
  ]

  keep-Has :
      (ref v : Text) (r : Result V.Failure Text × V.World) (b : Box V)
      → (keep_fetched V ref none r b).0 ≡ ok v
      → Has ref (keep_fetched V ref none r b).1
  keep-Has ref v (err e, w) b h = cc
  keep-Has ref v (ok val, w) b h = insert_self ref _ b.cache

  fetch-Has :
      (ref v : Text) (g : Result (ResolveError V) V.Store × Box V)
      → (fetch_with V ref none g).0 ≡ ok v
      → Has ref (fetch_with V ref none g).1
  fetch-Has ref v (err e, b) h = cc
  fetch-Has ref v (ok s, b) h = keep-Has ref v (V.fetch b.world s ref) b h

  pub secret-Has :
      (ref v : Text) (b : Box V) → (secret V ref b).0 ≡ ok v → Has ref (secret V ref b).1
  unfolding secret
  secret-Has ref v b h = elim (Option-cases (lookup ref b.cache)) [
    | inr k ↦ secret-Grows ref b ref k
    | inl k ↦
        let same : secret V ref b ≡ fetch_with V ref none (get_store V b) = rw (k, secret) refl in
        subst (λ g. Has ref g.1) (sym same)
          (fetch-Has ref v (get_store V b) (sym (ap (λ g. g.0) same) ∙ h))
  ]
