-- ===== src/Storage/Roles.antt =====
-- What `checkLayer` accepts.
use ranke_db.Base.{
  ◌≡◌, ◌≢◌, ◌↔◌, refl, ◌⊎◌, inl, inr, true, false, some, List, any, Text, text, text_eq,
  text_eq_iff, Result, ok, err, ==_iff, if◌then◌else◌, arith, Bool-cases, Result-cases,
  Option-cases, err-ne-ok, ok_unique, bind-eq-ok, sym, ◌∙◌,
}
use mathlib.Core.Path.{subst}
use ranke_db.Base.Dict.{Dict}
use ranke_db.Storage.{
  Unresolved, has_value, get, Capabilities, check_mode, check_size, check_fill, check_layer,
  RoleError, mode_unresolved, size_unresolved, fill_unresolved,
}
use ranke_db.Storage.Sizes.{parse_size}

-- a key that a layer declares resolves to a text with the property; an absent key is free
abbrev pub Declared : Dict (Result Unresolved Text) → Text → (Text → Type 0) → Type 0
Declared values key P =
    (has_value values key ≡ false) ⊎ ((v : Text) × (get values key ≡ ok v) × P v)

abbrev checked :
    Dict (Result Unresolved Text)
    → Text
    → (Unresolved → RoleError)
    → (Text → Result RoleError (Unit {0}))
    → Result RoleError (Unit {0})
checked values key f accepts =
    if has_value values key
    then elim (get values key) [ err e ↦ err (f e) | ok v ↦ accepts v ]
    else ok tt

-- a check of one key holds where its value passes
checked_iff :
    (values : Dict (Result Unresolved Text)) (key : Text) (f : Unresolved → RoleError)
    (accepts : Text → Result RoleError (Unit {0})) (P : Text → Type 0)
    → ((v : Text) → (accepts v ≡ ok tt) ↔ P v)
    → (checked values key f accepts ≡ ok tt) ↔ Declared values key P
checked_iff values key f accepts P same = elim (Bool-cases (has_value values key)) [
  | inl e ↦ elim (Result-cases (get values key)) [
    | inl (u, g) ↦ (
      λ h. err-ne-ok (checked values key f accepts) (f u) tt (rw (e) (rw (g) refl)) h,
      λ d. elim d [ inl k ↦ ground arith | inr (v, k, p) ↦ err-ne-ok (get values key) u v g k ],
    )
    | inr (m, g) ↦
        let runs : checked values key f accepts ≡ accepts m = rw (e) (rw (g) refl) in
        (
          λ h. inr (m, g, (same m).0 (sym runs ∙ h)),
          λ d. elim d [
            | inl k ↦ ground arith
            | inr (v, k, p) ↦ runs ∙ (same m).1 (subst P (ok_unique (get values key) v m k g) p)
          ],
        )
  ]
  | inr e ↦ (λ h. inl e, λ d. rw (e) refl)
]

module _ (tiers : List Text) (values : Dict (Result Unresolved Text)) (caps : Capabilities) where
  -- The built universe is what the layer declares: the tier, which the library knows, the size, and
  -- no read fill.
  pub record IsHonoured : Type 0 where
    pub mode : Declared values (text "mode") (λ m. (any (text_eq m) tiers ≡ true) × (m ≡ caps.tier))
    pub size :
        Declared values (text "maxContentSize") (λ raw. parse_size raw ≡ some caps.content_cap)
    pub fill : Declared values (text "noReadFill") (λ v. v ≢ text "true")

  mode_iff :
      (check_mode tiers values caps ≡ ok tt)
      ↔ Declared values (text "mode") (λ m. (any (text_eq m) tiers ≡ true) × (m ≡ caps.tier))
  unfolding check_mode
  mode_iff =
      checked_iff values (text "mode") mode_unresolved _ _
        (λ m. ground (arith, text_eq_iff m caps.tier))

  size_iff :
      (check_size values caps ≡ ok tt)
      ↔ Declared values (text "maxContentSize") (λ raw. parse_size raw ≡ some caps.content_cap)
  unfolding check_size
  size_iff = checked_iff values (text "maxContentSize") size_unresolved _ _ (λ raw.
      elim (Option-cases (parse_size raw)) [
        | inl e ↦ ground arith
        | inr (n, e) ↦ ground (arith, ==_iff n caps.content_cap)
      ])

  fill_iff :
      (check_fill values ≡ ok tt) ↔ Declared values (text "noReadFill") (λ v. v ≢ text "true")
  unfolding check_fill
  fill_iff =
      checked_iff values (text "noReadFill") fill_unresolved _ _
        (λ v. ground (arith, text_eq_iff v (text "true")))

  -- A layer passes the check exactly when the built universe honours everything that it declares: the
  -- mode is a tier of the library and the universe's own, the size is read as the universe's cap, and
  -- noReadFill is not "true"; each of them only where it is declared.
  pub check_layer_iff : (check_layer tiers values caps ≡ ok tt) ↔ IsHonoured
  unfolding check_layer
  check_layer_iff = (
    λ h.
        let (_, a, h1) = bind-eq-ok (check_mode tiers values caps) _ h in
        let (_, b, h2) = bind-eq-ok (check_size values caps) _ h1 in
        record { mode = mode_iff.0 a; size = size_iff.0 b; fill = fill_iff.0 h2 },
    λ h. rw (mode_iff.1 h.mode) (rw (size_iff.1 h.size) (fill_iff.1 h.fill)),
  )
