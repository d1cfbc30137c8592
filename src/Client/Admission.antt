-- ===== src/Client/Admission.antt =====
-- What a contributor's window admits.
use ranke_db.Base.{
  ℕ, ◌≡◌, refl, sym, ap, ◌∙◌, inl, inr, Bool, true, false, ◌&&◌, Option, none, some, List, [], ◌∷◌,
  ok, err, all, if◌then◌else◌, arith, Bool-cases, Result-cases, ok_unique, bind-eq-ok,
}
use ranke_db.Client.{
  Claims, Window, not_before, not_after, admits, is_earlier, key_bound, edge_bound, earlier_of,
  revocation_on, revocation_in, revocation, shorten, window_of,
}

not_after-earlier_of :
    (a b : Option ℕ) (at : ℕ) → not_after (earlier_of a b) at ≡ (not_after a at && not_after b at)
unfolding not_after earlier_of is_earlier
not_after-earlier_of none b at = refl
not_after-earlier_of (some a) none at = ground arith
not_after-earlier_of (some a) (some b) at = ground arith

module _ (C : Claims) where
  open C use {Claim, Edge, Name, id, edges, is_expiry, refers_to, valid_from, expires_after}

  -- an edge that retires the name at a date retires it at the time or later
  abbrev pub spares : Name → ℕ → Edge → Bool
  spares name at e =
      if is_expiry e && refers_to e name
      then elim (edge_bound C e expires_after) [ err f ↦ true | ok b ↦ not_after b at ]
      else true

  not_after-revocation_on :
      (name : Name) (es : List Edge) (acc r : Option ℕ) (at : ℕ)
      → revocation_on C name es acc ≡ ok r
      → not_after r at ≡ (not_after acc at && all (spares name at) es)
  unfolding revocation_on
  not_after-revocation_on name [] acc r at h =
      ground (arith, ok_unique (revocation_on C name [] acc) r acc h refl)
  not_after-revocation_on name (e ∷ es) acc r at h =
      elim (Bool-cases (is_expiry e && refers_to e name)) [
        | inl k ↦ elim (Result-cases (edge_bound C e expires_after)) [
          | inl (f, g) ↦ ground arith
          | inr (b, g) ↦ ground (
            arith,
            not_after-revocation_on name es (earlier_of b acc) r at (ground arith),
            not_after-earlier_of b acc at,
          )
        ]
        | inr k ↦ ground (arith, not_after-revocation_on name es acc r at (ground arith))
      ]

  not_after-revocation_in :
      (name : Name) (cs : List Claim) (acc r : Option ℕ) (at : ℕ)
      → revocation_in C name cs acc ≡ ok r
      → not_after r at ≡ (not_after acc at && all (λ c. all (spares name at) (edges c)) cs)
  unfolding revocation_in
  not_after-revocation_in name [] acc r at h =
      ground (arith, ok_unique (revocation_in C name [] acc) r acc h refl)
  not_after-revocation_in name (c ∷ cs) acc r at h =
      let (found, g, k) = bind-eq-ok (revocation_on C name (edges c) acc) _ h in
      ground (
        arith,
        not_after-revocation_on name (edges c) acc found at g,
        not_after-revocation_in name cs found r at k,
      )

  not_after-shorten :
      (from until revoked : Option ℕ) (at : ℕ)
      → admits (shorten (record { from = from; until = until; revoked = false }) revoked) at
        ≡ (not_before from at && (not_after until at && not_after revoked at))
  unfolding admits shorten not_after is_earlier
  not_after-shorten from until none at = ground arith
  not_after-shorten from none (some b) at = ground arith
  not_after-shorten from (some u) (some b) at = ground arith

  -- A window that is read admits a time exactly when the claim's own bounds do and every expiry edge
  -- that names the contributor, on whatever carrier and in whatever order, has no date or one that
  -- is not before the time: an expiry only shortens, and the earliest wins.
  pub admits-window_of :
      (self : Claim) (carriers : List Claim) (w : Window) (at : ℕ)
      → window_of C self carriers ≡ ok w
      → (from : Option ℕ) × (until : Option ℕ) × (key_bound C self valid_from ≡ ok from)
        × (key_bound C self expires_after ≡ ok until)
        × (admits w at ≡ (
            not_before from at
            && (not_after until at && all (λ c. all (spares (id self) at) (edges c)) carriers)))
  unfolding window_of revocation not_after
  admits-window_of self carriers w at h =
      let (from, e, h1) = bind-eq-ok (key_bound C self valid_from) _ h in
      let (until, f, h2) = bind-eq-ok (key_bound C self expires_after) _ h1 in
      let (revoked, g, h3) = bind-eq-ok (revocation C (id self) carriers) _ h2 in
      let own : Window = record { from = from; until = until; revoked = false } in
      let same : shorten own revoked ≡ w =
        ok_unique (ok (shorten own revoked)) (shorten own revoked) w refl h3 in
      (
        from,
        until,
        e,
        f,
        ap (λ w. admits w at) (sym same)
            ∙ not_after-shorten from until revoked at
            ∙ ap (λ r. not_before from at && (not_after until at && r))
                (not_after-revocation_in (id self) carriers none revoked at g),
      )
