-- ===== src/Core/Pipeline.antt =====
-- internal/core/core.go and the helpers of execute.go that the arms share.
use ranke_db.Base.{ℕ, Bool, true, false, none, some, [], ◌∷◌, ◌++◌, Text, ok, err, if◌then◌else◌}
use ranke_db.Errors.{
  Fault, fault, is, forbidden, not_found, not_implemented, lib_branch_not_found, map_lib_error,
}
use ranke_db.Access.Checker.{Principal}
use ranke_db.Access.Checker
use ranke_db.Auth
use ranke_db.Core.Library.{Ranke}
use ranke_db.Core.Values.{
  Operation, claim_contribute, right_of, Line, authenticated_as, no_grant_required,
  authorized_per_branch, authorized, Request, Server, Exchange,
}
use ranke_db.Core.Exec.{Exec, ◌>>=◌, ◌>>◌, reads, mapped}

abbrev pub is_contribute : Operation → Bool
is_contribute claim_contribute = true
is_contribute _ = false

-- `Core.branch`: its error
unfoldable pub branch_error : Fault → Fault
branch_error e = if is e lib_branch_not_found then fault not_found else map_lib_error e

module _ {R : Ranke} where
  open R use {Archive, Branch, get_archive, get_branch}

  -- `Report.step`
  abbrev pub step : Line → Exec (Exchange R) Unit
  step line x = (ok tt, record x { report = x.report ++ (line ∷ []) })

  abbrev pub set_principal : Principal → Exec (Exchange R) Unit
  set_principal p x = (ok tt, record x { principal = p })

  module _ (c : Server) where
    -- `authenticate`
    unfoldable pub authenticate : Request R → Exec (Exchange R) Unit
    authenticate req = do
      p ← reads (λ e. e) (λ _. Auth.authenticate c.auth req.credential)
      set_principal p
      step (authenticated_as p.account)

    -- `allow`
    unfoldable pub allow : ℕ → Text → Exec (Exchange R) Unit
    allow right branch x =
        if Checker.allow c.access x.principal right branch
        then step (authorized right branch) x
        else (err (fault forbidden), x)

    -- `authorize`
    unfoldable pub authorize : Request R → Exec (Exchange R) Unit
    authorize req = elim (right_of req.op) [
      | none ↦ step no_grant_required
      | some right ↦
          if is_contribute req.op then step authorized_per_branch else allow right req.branch
    ]

    -- `Core.archive`
    unfoldable pub archive : Exec (Exchange R) Archive
    archive x =
        if c.has_sequencer
        then (mapped map_lib_error (get_archive x.world), x)
        else (err (fault not_implemented), x)

  -- `Core.branch`
  unfoldable pub branch : Archive → Text → Exec (Exchange R) Branch
  branch a name = reads branch_error (λ x. get_branch x.world a name)
