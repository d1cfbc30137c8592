-- ===== src/Config/Genesis.antt =====
-- config/found.go: a launch that comes up has an archive.
use ranke_db.Base.{
  ◌≡◌, refl, sym, ap, ◌∙◌, inl, inr, true, false, Option, none, Text, text, Result, ok, err,
  Bool-cases, Result-cases,
}
use mathlib.Core.Path.{subst}
use ranke_db.Config.{Fields}
use ranke_db.Config.Secrets.{VaultPort, Box, ResolveError}
use ranke_db.Config.Sections.{has_leaf, get_section, get_value}
use ranke_db.Config.Founding.{
  ArchivePort, FoundError, Founding, Launch, no_first_contributor, encode_pubkey, founded,
  found_with, founding_branch, set_founded, with_branch, with_pubkey, found_configured,
  found_if_configured,
}

module _ (V : VaultPort) (A : ArchivePort) where
  -- Founding an archive ends its genesis.
  abbrev pub EndsGenesis : Type 0
  EndsGenesis =
      (w : A.World) (key branch : Text) (id : A.ClaimId)
      → (A.found w key branch).0 ≡ ok id
      → A.in_genesis (A.found w key branch).1 ≡ false

  founded-ok :
      (branch : Text) (o : Result A.Failure A.ClaimId × A.World) (f : Founding V A)
      → ((id : A.ClaimId) → o.0 ≡ ok id → A.in_genesis o.1 ≡ false)
      → (founded V A branch o).0 ≡ ok f
      → A.in_genesis (founded V A branch o).1 ≡ false
  founded-ok branch (err e, w) f g h = cc
  founded-ok branch (ok id, w) f g h = elim (Result-cases (A.head w)) [
    | inl (e, k) ↦ rw (k, founded) (g id refl)
    | inr (d, k) ↦ rw (k, founded) (g id refl)
  ]

  found_with-ok :
      EndsGenesis
      → (pem branch : Text) (w : A.World) (f : Founding V A)
      → (found_with V A pem branch w).0 ≡ ok f
      → A.in_genesis (found_with V A pem branch w).1 ≡ false
  unfolding found_with
  found_with-ok ends pem branch w f h = elim (Result-cases (encode_pubkey V A pem)) [
    | inl (e, k) ↦
        let refused : found_with V A pem branch w ≡ (err e, w) = rw (k, found_with) refl in
        let bad = sym (ap (λ o. o.0) refused) ∙ h in cc
    | inr (key, k) ↦
        let same : found_with V A pem branch w ≡ founded V A branch (A.found w key branch) =
          rw (k, found_with) refl in
        subst (λ o. A.in_genesis o.1 ≡ false) (sym same)
          (founded-ok branch (A.found w key branch) f (ends w key branch)
            (sym (ap (λ o. o.0) same) ∙ h))
  ]

  set_founded-ok :
      (b : Box V) (o : Result (FoundError V A) (Founding V A) × A.World) (f : Option (Founding V A))
      → ((g : Founding V A) → o.0 ≡ ok g → A.in_genesis o.1 ≡ false)
      → (set_founded V A b o).0 ≡ ok f
      → A.in_genesis (set_founded V A b o).1.archive ≡ false
  set_founded-ok b (err e, w) f g h = cc
  set_founded-ok b (ok d, w) f g h = g d refl

  with_branch-ok :
      EndsGenesis
      → (pem : Text) (w : A.World) (o : Result (FoundError V A) Text × Box V)
        (f : Option (Founding V A))
      → (with_branch V A pem w o).0 ≡ ok f
      → A.in_genesis (with_branch V A pem w o).1.archive ≡ false
  with_branch-ok ends pem w (err e, b) f h = cc
  with_branch-ok ends pem w (ok branch, b) f h =
      set_founded-ok b (found_with V A pem branch w) f (found_with-ok ends pem branch w) h

  with_pubkey-ok :
      EndsGenesis
      → (sec : Fields) (w : A.World) (o : Result (ResolveError V) Text × Box V)
        (f : Option (Founding V A))
      → (with_pubkey V A sec w o).0 ≡ ok f
      → A.in_genesis (with_pubkey V A sec w o).1.archive ≡ false
  with_pubkey-ok ends sec w (err e, b) f h = cc
  with_pubkey-ok ends sec w (ok pem, b) f h =
      with_branch-ok ends pem w (founding_branch V A sec b) f h

  configured-ok :
      EndsGenesis
      → (sec : Fields) (x : Launch V A) (f : Option (Founding V A))
      → (found_configured V A sec x).0 ≡ ok f
      → A.in_genesis (found_configured V A sec x).1.archive ≡ false
  configured-ok ends sec x f h =
      elim (Bool-cases (has_leaf (get_section sec (text "found")) (text "pubkey"))) [
        | inr e ↦
            let refused : found_configured V A sec x ≡ (err no_first_contributor, x) =
              rw (e) refl in
            let bad = sym (ap (λ o. o.0) refused) ∙ h in cc
        | inl e ↦
            let o =
              get_value V A.json_text (get_section sec (text "found")) (text "pubkey") x.box in
            let same : found_configured V A sec x ≡ with_pubkey V A sec x.archive o = rw (e) refl in
            subst (λ y. A.in_genesis y.1.archive ≡ false) (sym same)
              (with_pubkey-ok ends sec x.archive o f (sym (ap (λ y. y.0) same) ∙ h))
      ]

  -- A launch with a sequencer that comes up without an error has an archive that is founded, where
  -- founding one ends its genesis; and on an archive that was founded already it does nothing.
  pub found_if_configured_lem :
      EndsGenesis
      → (sec : Fields) (x : Launch V A)
      → ((f : Option (Founding V A))
          → (found_if_configured V A true sec x).0 ≡ ok f
          → A.in_genesis (found_if_configured V A true sec x).1.archive ≡ false)
        × (A.in_genesis x.archive ≡ false → found_if_configured V A true sec x ≡ (ok none, x))
  unfolding found_if_configured
  found_if_configured_lem ends sec x = (
    λ f h. elim (Bool-cases (A.in_genesis x.archive)) [
      | inr e ↦ rw (e, found_if_configured) e
      | inl e ↦
          let same : found_if_configured V A true sec x ≡ found_configured V A sec x =
            rw (e, found_if_configured) refl in
          subst (λ y. A.in_genesis y.1.archive ≡ false) (sym same)
            (configured-ok ends sec x f (sym (ap (λ y. y.0) same) ∙ h))
    ],
    λ e. rw (e, found_if_configured) refl,
  )
