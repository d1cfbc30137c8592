-- ===== src/Core/Contribute.antt =====
-- internal/core/execute.go: the contribute arm. The body narrows to what the grants allow, and the
-- library opens, verifies, persists and merges under that.
use ranke_db.Base.{
  Bool, true, false, none, some, List, [], ◌∷◌, ◌++◌, map, keep, length, Text, Result, ok, err,
  if◌then◌else◌,
}
use ranke_db.Errors.{Fault, fault, invalid_request, map_lib_error, map_verify_error}
use ranke_db.Access.Grant.{universe, branches, read_right, contribute_right}
use ranke_db.Access.Checker.{Principal}
use ranke_db.Access.Checker
use ranke_db.Core.Library.{Ranke, Constraints}
use ranke_db.Core.Values.{
  may_reference, would_be_created, merged, Request, Server, Exchange, Stream, contribution_json,
}
use ranke_db.Core.Exec.{Exec, ◌>>=◌, ◌>>◌, pure, raise, reads, mapped}
use ranke_db.Core.Pipeline.{step, allow, archive}

abbrev pub is_empty : List Text → Bool
is_empty [] = true
is_empty (_ ∷ _) = false

-- `liftedTypes`
unfoldable pub lifted_types : Ranke → Server → Principal → List Text
lifted_types R c p =
    if Checker.allow c.access p contribute_right branches then R.node_branches ∷ [] else []

module _ {R : Ranke} where
  open R use {
    World, ClaimId, Archive, Branch, Body, Opened, Verified, Mergable, id_text, branch_name,
    get_branches, missing_branches, wire_constraints, narrow, new_contribution, add_wire,
    complete_and_verify, persist, merge, verified_ids,
  }

  -- a call of the library that may change the world
  abbrev pub calls :
      {A : Type 0} → (Fault → Fault) → (World → Result Fault A × World) → Exec (Exchange R) A
  calls f g x = (mapped f (g x.world).0, record x { world = (g x.world).1 })

  -- the calls of the library, from `NewContribution` to `Merge`
  unfoldable pub carry_out : Constraints → List Text → Body → Exec (Exchange R) (Stream R)
  carry_out bounds declared body = do
    opened ← calls map_lib_error (λ w. new_contribution w bounds)
    filled ← calls (λ _. fault invalid_request) (λ w. add_wire w opened body)
    verified ← calls map_verify_error (λ w. complete_and_verify w filled)
    mergable ← calls map_lib_error (λ w. persist w verified)
    head ← calls map_lib_error (λ w. merge w mergable)
    let ids = map id_text (verified_ids verified)
    step (merged (length ids) declared (id_text head))
    pure (contribution_json (id_text head) ids)

  module _ (c : Server) where
    -- the loop that checks C on each declared branch
    unfoldable pub allow_all : List Text → Exec (Exchange R) Unit
    allow_all [] = pure tt
    allow_all (b ∷ bs) = do allow c contribute_right b; allow_all bs

    -- `readableScopes`
    unfoldable pub readable_scopes : Archive → Exec (Exchange R) (List Text)
    readable_scopes a x =
        if Checker.allow c.access x.principal read_right universe
        then (ok (universe ∷ []), x)
        else (
          mapped map_lib_error (elim (get_branches x.world a) [
            | err e ↦ err e
            | ok bs ↦ ok (keep (Checker.allow c.access x.principal read_right) (map branch_name bs))
          ]),
          x,
        )

    -- `creatableBranches`, the missing branches being known
    unfoldable pub creatable_of : List Text → Exec (Exchange R) (List Text)
    creatable_of missing x =
        if is_empty missing
        then (ok [], x)
        else if Checker.allow c.access x.principal contribute_right branches
        then (ok missing, record x { report = x.report ++ (would_be_created missing ∷ []) })
        else (ok [], x)

    -- `creatableBranches`
    unfoldable pub creatable_branches : Archive → List Text → Exec (Exchange R) (List Text)
    creatable_branches a declared = do
      missing ← reads map_lib_error (λ x. missing_branches x.world a declared)
      creatable_of missing

    -- what `contribute` opens under
    unfoldable pub effective : Archive → Constraints → Exec (Exchange R) Constraints
    effective a asked = do
      allow_all asked.branches
      granted ← readable_scopes a
      creatable ← creatable_branches a asked.branches
      (λ x. (
        ok (
            narrow asked (record {
              branches = asked.branches;
              referencable = granted;
              lifted = lifted_types R c x.principal;
              creatable = creatable;
            })),
        x,
      ))

    -- `contribute` once the constraints are read
    unfoldable pub contribute_under : Constraints → Body → Exec (Exchange R) (Stream R)
    contribute_under asked body =
        if is_empty asked.branches then raise (fault invalid_request) else do
          a ← archive c
          bounds ← effective a asked
          step (may_reference bounds.referencable bounds.creatable)
          carry_out bounds asked.branches body

    -- `contribute`
    unfoldable pub contribute : Request R → Exec (Exchange R) (Stream R)
    contribute req = elim req.body [
      | none ↦ raise (fault invalid_request)
      | some body ↦ do
        asked ← reads (λ _. fault invalid_request) (λ _. wire_constraints body)
        contribute_under asked body
    ]
