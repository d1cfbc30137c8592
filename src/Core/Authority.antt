-- ===== src/Core/Authority.antt =====
-- internal/core: the right that stands behind every answer which is no error.
use ranke_db.Base.{
  ◌≡◌, refl, ap, ◌∙◌, inl, inr, true, none, some, ok, err-ne-ok, Bool-cases, Result-cases,
  if◌then◌else◌,
}
use ranke_db.Errors.{fault, forbidden}
use ranke_db.Access.Checker.{Principal}
use ranke_db.Access.Checker
use ranke_db.Auth
use ranke_db.Core.Library.{Ranke}
use ranke_db.Core.Values.{
  Operation, claim_query, claim_get, claim_content, claim_delete, branch_head, branch_info,
  branch_list, archive_info, right_of, Request, Server, Exchange, Stream,
}
use ranke_db.Core.Pipeline.{is_contribute}
use ranke_db.Core.Execute.{handle}
use ranke_db.Core.Gate.{handle_unauthenticated, handle_authenticated, is_permitted}

module _ {R : Ranke} (c : Server) (req : Request R) (x : Exchange R) where
  -- what a principal must hold on the scope that a request names: `R` to read of claims, branches or
  -- the archive and `D` to delete; a contribution is checked branch by branch, and nothing else needs
  -- a grant
  abbrev pub IsEntitled : Principal → Operation → Type 0
  IsEntitled p claim_query = Checker.allow c.access p b'R' req.branch ≡ true
  IsEntitled p claim_get = Checker.allow c.access p b'R' req.branch ≡ true
  IsEntitled p claim_content = Checker.allow c.access p b'R' req.branch ≡ true
  IsEntitled p branch_head = Checker.allow c.access p b'R' req.branch ≡ true
  IsEntitled p branch_info = Checker.allow c.access p b'R' req.branch ≡ true
  IsEntitled p branch_list = Checker.allow c.access p b'R' req.branch ≡ true
  IsEntitled p archive_info = Checker.allow c.access p b'R' req.branch ≡ true
  IsEntitled p claim_delete = Checker.allow c.access p b'D' req.branch ≡ true
  IsEntitled p _ = Unit

  permitted-IsEntitled :
      (p : Principal) (op : Operation)
      → elim (right_of op) [
        | none ↦ true
        | some right ↦ if is_contribute op then true else Checker.allow c.access p right req.branch
      ]
        ≡ true
      → IsEntitled p op
  unfolding right_of
  permitted-IsEntitled p claim_query h = h
  permitted-IsEntitled p claim_get h = h
  permitted-IsEntitled p claim_content h = h
  permitted-IsEntitled p branch_head h = h
  permitted-IsEntitled p branch_info h = h
  permitted-IsEntitled p branch_list h = h
  permitted-IsEntitled p archive_info h = h
  permitted-IsEntitled p claim_delete h = h
  permitted-IsEntitled p _ h = tt

  -- A request that is answered with no error comes from a principal that its credential proves, and
  -- one that asks to read claims, their content, a branch, the branches or the archive comes from one
  -- that may read the scope that it names.
  pub handle-IsEntitled :
      (s : Stream R)
      → (handle c req x).0 ≡ ok s
      → (p : Principal) × (Auth.authenticate c.auth req.credential ≡ ok p) × IsEntitled p req.op
  handle-IsEntitled s h = elim (Result-cases (Auth.authenticate c.auth req.credential)) [
    | inl (e, k) ↦
        err-ne-ok (handle c req x).0 e s (ap (λ t. t.0) (handle_unauthenticated c req x e k)) h
    | inr (p, k) ↦ elim (Bool-cases (is_permitted c req x p)) [
      | inl e ↦ (p, k, permitted-IsEntitled p req.op e)
      | inr e ↦
          err-ne-ok (handle c req x).0 (fault forbidden) s
            (ap (λ t. t.0) (handle_authenticated c req x p k) ∙ rw (e) refl) h
    ]
  ]
