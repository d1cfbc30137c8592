-- ===== src/Core/Serving.antt =====
-- internal/core: what a client is served.
use ranke_db.Base.{
  ◌≡◌, ◌≢◌, refl, sym, ◌∙◌, ap, inl, inr, true, some, [], ◌∷◌, ◌++◌, Text, text_eq, text_eq_iff, ok,
  arith, Bool-cases, Option-cases, Result-cases,
}
use mathlib.Core.Path.{subst}
use ranke_db.Base.{ok_unique, err-ne-ok}
use ranke_db.Errors.{fault, forbidden, not_found, map_lib_error}
use ranke_db.Access.Grant.{universe, archive, read_right}
use ranke_db.Access.Checker.{Principal}
use ranke_db.Access.Checker
use ranke_db.Auth
use ranke_db.Core.Library.{Ranke}
use ranke_db.Core.Values.{
  claim_get, right_of, Request, Server, Exchange, Stream, bytes_stream, snapshot,
}
use ranke_db.Core.Pipeline
use ranke_db.Core.Read
use ranke_db.Core.Execute.{answer, on_archive, dispatch, execute, handle}
use ranke_db.Core.Frame.{archive-Reports}
use ranke_db.Core.Gate.{
  handle_unauthenticated, handle_authenticated, identified, is_permitted, permit_line,
}

module _ (R : Ranke) where
  -- where the claim of a scope comes from
  pub data ClaimFrom (w : R.World) (a : R.Archive) (scope : Text) (id : R.ClaimId) (found : R.Claim)
      : Type 0 where
    from_universe :
        scope ≡ universe → R.universe_claim w id ≡ ok found → ClaimFrom w a scope id found
    from_archive :
        scope ≡ archive → R.archive_claim w a id ≡ ok found → ClaimFrom w a scope id found
    from_branch :
        scope ≢ universe
        → scope ≢ archive
        → (b : R.Branch) → R.get_branch w a scope ≡ ok b
        → R.branch_claim w b id ≡ ok found
        → ClaimFrom w a scope id found

module _ {R : Ranke} where
  scoped_claim-ClaimFrom :
      (scope : Text) (id : R.ClaimId) (a : R.Archive) (x : Exchange R) (found : R.Claim)
      → (Read.scoped_claim scope (some id) a x).0 ≡ ok found
      → ClaimFrom R x.world a scope id found
  unfolding Read.scoped_claim Pipeline.branch
  scoped_claim-ClaimFrom scope id a x found h = elim (Bool-cases (text_eq scope universe)) [
    | inl e ↦ from_universe ((text_eq_iff scope universe).0 e) (ground arith)
    | inr e ↦ elim (Bool-cases (text_eq scope archive)) [
      | inl f ↦ from_archive ((text_eq_iff scope archive).0 f) (ground arith)
      | inr f ↦ elim (Result-cases (R.get_branch x.world a scope)) [
        | inl (u, g) ↦ ground arith
        | inr (b, g) ↦
            from_branch (λ q. ground (arith, (text_eq_iff scope universe).1 q))
              (λ q. ground (arith, (text_eq_iff scope archive).1 q)) b g (ground arith)
      ]
    ]
  ]

  -- what a served claim is
  pub record Served (c : Server) (req : Request R) (w : R.World) (s : Stream R) : Type 0 where
    pub principal : Principal
    pub id : R.ClaimId
    pub snapshot : R.Archive
    pub found : R.Claim
    pub payload : R.Payload
    pub known : Auth.authenticate c.auth req.credential ≡ ok principal
    pub allowed : Checker.allow c.access principal read_right req.branch ≡ true
    pub asked : req.claim_id ≡ some id
    pub held : R.get_archive w ≡ ok snapshot
    pub source : ClaimFrom R w snapshot req.branch id found
    pub encoded : R.envelope found ≡ ok payload
    pub serves : s ≡ bytes_stream payload

  claim_eq :
      (req : Request R) (a : R.Archive) (x : Exchange R) (s : Stream R)
      → (Read.claim req a x).0 ≡ ok s
      → (id : R.ClaimId) × (found : R.Claim) × (payload : R.Payload) × (req.claim_id ≡ some id)
        × ClaimFrom R x.world a req.branch id found
        × (R.envelope found ≡ ok payload)
        × (s ≡ bytes_stream payload)
  unfolding Read.claim Read.scoped_claim
  claim_eq req a x s h = elim (Option-cases req.claim_id) [
    | inl e ↦ err-ne-ok (Read.claim req a x).0 (fault not_found) s (rw (e) refl) h
    | inr (id, e) ↦ elim (Result-cases (Read.scoped_claim {R = R} req.branch (some id) a x).0) [
      | inl (f, g) ↦ err-ne-ok (Read.claim req a x).0 f s (rw (e) (rw (g) refl)) h
      | inr (found, g) ↦ elim (Result-cases (R.envelope found)) [
        | inl (f, k) ↦
            err-ne-ok (Read.claim req a x).0 (map_lib_error f) s (rw (e) (rw (g) (rw (k) refl))) h
        | inr (payload, k) ↦ (
          id,
          found,
          payload,
          e,
          scoped_claim-ClaimFrom req.branch id a x found g,
          k,
          ok_unique (Read.claim req a x).0 s (bytes_stream payload) h
              (rw (e) (rw (g) (rw (k) refl))),
        )
      ]
    ]
  ]

  pub snapshot_eq :
      (c : Server) (x : Exchange R) (a : R.Archive)
      → (Pipeline.archive c x).0 ≡ ok a
      → R.get_archive x.world ≡ ok a
  unfolding Pipeline.archive
  snapshot_eq c x a h = elim (Result-cases (R.get_archive x.world)) [
    | inl (e, g) ↦ ground arith
    | inr (b, g) ↦ ground arith
  ]

  on_archive_eq :
      (c : Server) (req : Request R) (x : Exchange R) (s : Stream R)
      → (on_archive c claim_get req x).0 ≡ ok s
      → (a : R.Archive) × (y : Exchange R) × (R.get_archive x.world ≡ ok a)
        × (y.world ≡ x.world)
        × ((Read.claim req a y).0 ≡ ok s)
  unfolding on_archive answer
  on_archive_eq c req x s h = elim (Result-cases (Pipeline.archive {R = R} c x).0) [
    | inl (e, g) ↦ err-ne-ok (on_archive c claim_get req x).0 e s (rw (g) refl) h
    | inr (a, g) ↦
        let y = (Pipeline.archive {R = R} c x).1 in
        let z = record y { report = y.report ++ (snapshot (R.id_text (R.archive_head a)) ∷ []) } in
        let k : (on_archive c claim_get req x).0 ≡ (Read.claim req a z).0 = rw (g) refl in
        (
          a,
          z,
          snapshot_eq c x a g,
          ap (λ (t : Exchange R). t.world) (archive-Reports c x),
          sym k ∙ h,
        )
  ]

  permitted_read :
      (c : Server) (req : Request R) (x : Exchange R) (p : Principal)
      → req.op ≡ claim_get
      → is_permitted c req x p ≡ Checker.allow c.access p read_right req.branch
  unfolding right_of
  permitted_read c req x p o = rw (o) refl

  -- A request for a claim that is answered with no error comes from an authenticated principal that
  -- may read the scope it names, and is served the envelope of the claim with the id it asks for:
  -- found by id in the Universe for `$universe`, in the snapshot's archive for `$archive`, and for
  -- any other name in that branch of the snapshot and nowhere else.
  pub handle-Served :
      (c : Server) (req : Request R) (x : Exchange R) (s : Stream R)
      → req.op ≡ claim_get
      → (handle c req x).0 ≡ ok s
      → Served c req x.world s
  unfolding execute dispatch right_of
  handle-Served c req x s o h = elim (Result-cases (Auth.authenticate c.auth req.credential)) [
    | inl (e, k) ↦
        err-ne-ok (handle c req x).0 e s (ap (λ t. t.0) (handle_unauthenticated c req x e k)) h
    | inr (p, k) ↦ elim (Bool-cases (is_permitted c req x p)) [
      | inl e ↦
          let t = identified c req x p in
          let u = record t { report = t.report ++ (permit_line c req x ∷ []) } in
          let runs : (handle c req x).0 ≡ (on_archive c claim_get req u).0 =
            ap (λ t. t.0) (handle_authenticated c req x p k) ∙ rw (e) (rw (o) refl) in
          let (a, y, g, w, q) = on_archive_eq c req u s (sym runs ∙ h) in
          let (id, found, payload, asked, source, encoded, serves) = claim_eq req a y s q in
          record {
            principal = p;
            id = id;
            snapshot = a;
            found = found;
            payload = payload;
            known = k;
            allowed = sym (permitted_read c req x p o) ∙ e;
            asked = asked;
            held = g;
            source = subst (λ w. ClaimFrom R w a req.branch id found) w source;
            encoded = encoded;
            serves = serves;
          }
      | inr e ↦
          err-ne-ok (handle c req x).0 (fault forbidden) s
            (ap (λ t. t.0) (handle_authenticated c req x p k) ∙ rw (e) refl) h
    ]
  ]
