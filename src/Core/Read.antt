-- ===== src/Core/Read.antt =====
-- internal/core/execute.go: the arms that read the archive, and the operational arms.
use ranke_db.Base.{
  ℕ, Option, none, some, [], ◌∷◌, ◌++◌, map, length, Text, text_eq, Result, ok, err, ltb,
  if◌then◌else◌,
}
use ranke_db.Errors.{Fault, fault, not_found, not_implemented, map_lib_error}
use ranke_db.Access.Grant.{universe, archive, print_grant}
use ranke_db.Access.Checker
use ranke_db.Core.Library.{Ranke}
use ranke_db.Core.Values.{
  query_executed, claim_read, content_read, branch_head_read, branch_described, archive_described,
  branches_listed, health_reported, subject_reported, layers_listed, clock_advanced, Request,
  Server, Exchange, Stream, query_stream, bytes_stream, blob_stream, head_json, branch_json,
  archive_json, branches_json, health_json, subject_json, layers_json, clock_json,
}
use ranke_db.Core.Exec.{Exec, ◌>>=◌, ◌>>◌, pure, raise, reads, mapped}
use ranke_db.Core.Pipeline.{step, branch}

-- adapters/sequencer/clock_dev.go: `SteerableClock.Advance` on the clock's position
unfoldable pub advance : ℕ → ℕ → ℕ
advance at set = if ltb set at then at else set

module _ {R : Ranke} where
  open R use {
    ClaimId, Archive, Branch, Claim, Content, id_text, height, created_at, branch_name, branch_head,
    archive_head, envelope, universe_claim, claim_content, archive_claim, archive_content,
    branch_claim, branch_content, get_branches, is_wire_encoded, as_json, run_query,
  }

  -- `query`
  unfoldable pub query : Request R → Archive → Exec (Exchange R) (Stream R)
  query req a = elim req.query [
    | none ↦ raise (fault not_found)
    | some asked ↦ do
      let q = if is_wire_encoded asked then asked else as_json asked
      results ← reads map_lib_error (λ x. run_query x.world a q)
      step query_executed
      pure (query_stream results q)
  ]

  -- `scopedClaim`
  unfoldable pub scoped_claim : Text → Option ClaimId → Archive → Exec (Exchange R) Claim
  scoped_claim scope none a = raise (fault not_found)
  scoped_claim scope (some id) a =
      if text_eq scope universe
      then reads map_lib_error (λ x. universe_claim x.world id)
      else if text_eq scope archive
      then reads map_lib_error (λ x. archive_claim x.world a id)
      else do b ← branch a scope; reads map_lib_error (λ x. branch_claim x.world b id)

  -- `claim`
  unfoldable pub claim : Request R → Archive → Exec (Exchange R) (Stream R)
  claim req a = do
    found ← scoped_claim req.branch req.claim_id a
    payload ← reads map_lib_error (λ _. envelope found)
    step (claim_read (elim req.claim_id [ none ↦ [] | some id ↦ id_text id ]))
    pure (bytes_stream payload)

  -- the two calls of the `$universe` case
  abbrev universe_content : ClaimId → Exchange R → Result Fault Content
  universe_content id x = elim (universe_claim x.world id) [
    | err e ↦ err e
    | ok found ↦ claim_content x.world found
  ]

  -- the switch of `claimContent`; the error of `branch` comes to `mapLibError` mapped
  unfoldable pub scoped_content : Text → ClaimId → Archive → Exec (Exchange R) Content
  scoped_content scope id a x =
      if text_eq scope universe
      then (mapped map_lib_error (universe_content id x), x)
      else if text_eq scope archive
      then (mapped map_lib_error (archive_content x.world a id), x)
      else let (r, x') = branch a scope x in
        (mapped map_lib_error (elim r [ err e ↦ err e | ok b ↦ branch_content x.world b id ]), x')

  -- `claimContent`
  unfoldable pub content : Request R → Archive → Exec (Exchange R) (Stream R)
  content req a = elim req.claim_id [
    | none ↦ raise (fault not_found)
    | some id ↦ do
      bytes ← scoped_content req.branch id a
      step (content_read (id_text id))
      pure (blob_stream bytes)
  ]

  -- `branchHead`
  unfoldable pub head : Request R → Archive → Exec (Exchange R) (Stream R)
  head req a = do
    b ← branch a req.branch
    step (branch_head_read req.branch)
    pure (head_json (id_text (branch_head b)))

  -- `branchInfo`
  unfoldable pub info : Request R → Archive → Exec (Exchange R) (Stream R)
  info req a = do
    b ← branch a req.branch
    top ← reads map_lib_error (λ x. archive_claim x.world a (branch_head b))
    step (branch_described req.branch)
    pure (branch_json (branch_name b) (id_text (branch_head b)) (height top) (created_at top))

  -- `archiveInfo`
  unfoldable pub describe : Archive → Exec (Exchange R) (Stream R)
  describe a = do
    top ← reads map_lib_error (λ x. archive_claim x.world a (archive_head a))
    bs ← reads map_lib_error (λ x. get_branches x.world a)
    step (archive_described (id_text (archive_head a)))
    pure (archive_json (id_text (archive_head a)) (height top) (created_at top) (length bs))

  -- `branchList`
  unfoldable pub listing : Archive → Exec (Exchange R) (Stream R)
  listing a = do
    bs ← reads map_lib_error (λ x. get_branches x.world a)
    step (branches_listed (length bs))
    pure (branches_json (map (λ b. (branch_name b, id_text (branch_head b))) bs))

  -- `health`
  unfoldable pub health : Server → Exec (Exchange R) (Stream R)
  health c = do step health_reported; pure (health_json c.version c.signer)

  -- `subject`
  unfoldable pub subject : Server → Exec (Exchange R) (Stream R)
  subject c x =
      let p = x.principal in
      let reported : Exchange R = record x {
        report = x.report ++ (subject_reported p.account ∷ []);
      } in
      (
        ok (subject_json p.account (Checker.grants c.access p.account) (map print_grant p.caveats)),
        reported,
      )

  -- `layers`
  unfoldable pub layers : Server → Exec (Exchange R) (Stream R)
  layers c = do step (layers_listed (length c.layer_info)); pure (layers_json c.layer_info)

  -- `devClockAdvanceOp`
  unfoldable pub dev_clock : Server → Request R → Exec (Exchange R) (Stream R)
  dev_clock c req x =
      if c.has_dev_clock
      then (let at = advance req.dev_clock_at x.clock in
          (
            ok (clock_json at),
            record x { clock = at; report = x.report ++ (clock_advanced at ∷ []) },
          ))
      else (err (fault not_implemented), x)
