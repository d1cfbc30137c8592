-- ===== src/Core/Execute.antt =====
-- internal/core: `execute` (execute.go), the dispatch of the verification arm (verification.go) and
-- `Handle` (core.go).
use ranke_db.Base.{none, some, [], ◌∷◌, ◌++◌, length, Result, ok, err}
use ranke_db.Errors.{Fault, fault, not_found, not_implemented}
use ranke_db.Verification
use ranke_db.Verification.Values.{Report}
use ranke_db.Verification.{Registry}
use ranke_db.Core.Library.{Ranke}
use ranke_db.Core.Values.{
  Operation, claim_query, claim_get, claim_content, claim_contribute, branch_head, branch_info,
  branch_list, archive_info, layer_list, layer_info, health_get, subject_get, verification_start,
  verification_list, verification_get, verification_cancel, verification_delete, dev_clock_advance,
  snapshot, not_yet_implemented, run_started, run_read, run_stopped, run_deleted, reports_listed,
  Request, Server, Exchange, Stream, report_json, reports_json, empty_json,
}
use ranke_db.Core.Exec.{Exec, ◌>>=◌, ◌>>◌, pure, raise}
use ranke_db.Core.Pipeline.{step, authenticate, authorize, archive}
use ranke_db.Core.Read
use ranke_db.Core.Contribute.{contribute}

module _ {R : Ranke} where
  open R use {Archive, id_text, archive_head, verify}

  -- an operation of the registry that returns a report
  abbrev on_runs : (Registry → Result Fault Report × Registry) → Exec (Exchange R) Report
  on_runs f x = ((f x.runs).0, record x { runs = (f x.runs).1 })

  unfoldable pub start_run : Request R → Archive → Exec (Exchange R) (Stream R)
  start_run req a = elim req.ver_config [
    | none ↦ raise (fault not_found)
    | some cfg ↦ do
      report ← (λ x.
          on_runs
            (λ r.
              Verification.start r (some (id_text (archive_head a))) (verify x.world a) cfg x.now)
            x)
      step (run_started report.id)
      pure (report_json report)
  ]

  unfoldable pub delete_run : Request R → Exec (Exchange R) (Stream R)
  delete_run req x = elim (Verification.remove x.runs req.ver_id).0 [
    | some e ↦ (err e, record x { runs = (Verification.remove x.runs req.ver_id).1 })
    | none ↦ (
      ok empty_json,
      record x {
        runs = (Verification.remove x.runs req.ver_id).1;
        report = x.report ++ (run_deleted req.ver_id ∷ []);
      },
    )
  ]

  unfoldable pub list_runs : Exec (Exchange R) (Stream R)
  list_runs x =
      let reports = Verification.list x.runs in
      (
        ok (reports_json reports),
        record x { report = x.report ++ (reports_listed (length reports) ∷ []) },
      )

  -- `verification`
  unfoldable pub verification : Operation → Request R → Archive → Exec (Exchange R) (Stream R)
  verification verification_start req a = start_run req a
  verification verification_list req a = list_runs
  verification verification_get req a = do
    report ← on_runs (λ r. (Verification.get r req.ver_id, r))
    step (run_read report.id)
    pure (report_json report)
  verification verification_cancel req a = do
    report ← on_runs (λ r. Verification.stop r req.ver_id)
    step (run_stopped report.id)
    pure (report_json report)
  verification verification_delete req a = delete_run req
  verification _ req a = raise (fault not_implemented)

  module _ (c : Server) where
    -- the second switch of `execute`
    unfoldable pub answer : Operation → Request R → Archive → Exec (Exchange R) (Stream R)
    answer claim_contribute req a = contribute c req
    answer claim_query req a = Read.query req a
    answer claim_get req a = Read.claim req a
    answer claim_content req a = Read.content req a
    answer branch_head req a = Read.head req a
    answer branch_info req a = Read.info req a
    answer archive_info req a = Read.describe a
    answer branch_list req a = Read.listing a
    answer verification_start req a = verification verification_start req a
    answer verification_list req a = verification verification_list req a
    answer verification_get req a = verification verification_get req a
    answer verification_cancel req a = verification verification_cancel req a
    answer verification_delete req a = verification verification_delete req a
    answer op req a = do step (not_yet_implemented op); raise (fault not_implemented)

    -- what `execute` does for an operation that the first switch does not answer
    unfoldable pub on_archive : Operation → Request R → Exec (Exchange R) (Stream R)
    on_archive op req = do
      a ← archive c
      step (snapshot (id_text (archive_head a)))
      answer op req a

    unfoldable pub dispatch : Operation → Request R → Exec (Exchange R) (Stream R)
    dispatch health_get req = Read.health c
    dispatch subject_get req = Read.subject c
    dispatch layer_list req = Read.layers c
    dispatch layer_info req = Read.layers c
    dispatch dev_clock_advance req = Read.dev_clock c req
    dispatch op req = on_archive op req

    -- `execute`
    unfoldable pub execute : Request R → Exec (Exchange R) (Stream R)
    execute req = dispatch req.op req

    -- `Handle`
    unfoldable pub handle : Request R → Exec (Exchange R) (Stream R)
    handle req = do authenticate c req; authorize c req; execute req
