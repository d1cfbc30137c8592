-- ===== src/Core/Gate.antt =====
-- internal/core/core.go: what stands between a credential and an operation.
use ranke_db.Base.{◌≡◌, refl, Bool, true, none, some, [], ◌∷◌, ◌++◌, ok, err, arith, if◌then◌else◌}
use ranke_db.Errors.{Fault, fault, forbidden}
use ranke_db.Access.Checker.{Principal}
use ranke_db.Access.Checker
use ranke_db.Auth
use ranke_db.Core.Library.{Ranke}
use ranke_db.Core.Values.{
  right_of, Line, authenticated_as, no_grant_required, authorized_per_branch, authorized, Request,
  Server, Exchange,
}
use ranke_db.Core.Pipeline.{is_contribute, authenticate, authorize, allow}
use ranke_db.Core.Execute.{execute, handle}

module _ {R : Ranke} (c : Server) (req : Request R) (x : Exchange R) where
  -- A request whose credential is refused gets that error, and nothing has happened.
  pub handle_unauthenticated :
      (e : Fault) → Auth.authenticate c.auth req.credential ≡ err e → handle c req x ≡ (err e, x)
  unfolding handle authenticate
  handle_unauthenticated e h = rw (h) refl

  -- the exchange once the principal is known
  abbrev pub identified : Principal → Exchange R
  identified p = record x { principal = p; report = x.report ++ (authenticated_as p.account ∷ []) }

  -- what `authorize` answers for a principal
  abbrev pub is_permitted : Principal → Bool
  is_permitted p = elim (right_of req.op) [
    | none ↦ true
    | some right ↦ if is_contribute req.op then true else Checker.allow c.access p right req.branch
  ]

  abbrev pub permit_line : Line
  permit_line = elim (right_of req.op) [
    | none ↦ no_grant_required
    | some right ↦
        if is_contribute req.op then authorized_per_branch else authorized right req.branch
  ]

  -- A request with a good credential runs exactly when `authorize` permits its principal; where it
  -- does not, the answer is forbidden and the principal and the report are all that was written.
  pub handle_authenticated :
      (p : Principal)
      → Auth.authenticate c.auth req.credential ≡ ok p
      → handle c req x ≡ (
          if is_permitted p
          then execute c req
              (record (identified p) { report = (identified p).report ++ (permit_line ∷ []) })
          else (err (fault forbidden), identified p))
  unfolding handle authenticate authorize allow
  handle_authenticated p h = rw (h) (ground arith)
