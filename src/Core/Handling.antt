-- ===== src/Core/Handling.antt =====
-- internal/core: what a whole request does to the exchange it runs on.
use ranke_db.Base.{
  ◌≡◌, refl, sym, ap, ◌∙◌, some, ok, inl, inr, [], ◌∷◌, ◌++◌, Bool-cases, Result-cases,
}
use mathlib.Core.Path.{subst}
use ranke_db.Auth
use ranke_db.Core.Library.{Ranke}
use ranke_db.Core.Values.{
  Operation, claim_query, claim_get, claim_content, claim_contribute, claim_delete, branch_head,
  branch_info, branch_list, archive_info, layer_list, layer_info, health_get, subject_get,
  verification_start, verification_list, verification_get, verification_cancel, verification_delete,
  dev_clock_advance, clock_advanced, snapshot, Request, Server, Exchange,
}
use ranke_db.Core.Pipeline.{archive}
use ranke_db.Core.Read
use ranke_db.Core.Read.{advance}
use ranke_db.Core.Contribute.{contribute}
use ranke_db.Core.Execute.{
  start_run, list_runs, verification, answer, on_archive, dispatch, execute, handle,
}
use ranke_db.Core.Frame.{
  query-Reports, claim-Reports, content-Reports, head-Reports, info-Reports, describe-Reports,
  listing-Reports, archive-Reports, start_run-Runs, stop_run-Runs, delete_run-Runs, get_run-Reports,
}
use ranke_db.Core.Gate.{
  handle_unauthenticated, handle_authenticated, identified, is_permitted, permit_line,
}
use ranke_db.Verification.Limit.{Op, start_op, stop_op, remove_op}
use ranke_db.Core.Footprint.{
  IsIdentified, Effect, reported, contributed, advanced, still, quietly, running, merging,
}
use ranke_db.Core.Contribute.{carry_out}
use ranke_db.Core.Frame.{carry_out-Worlds}
use ranke_db.Core.Effects.{contribute-cases}
use ranke_db.Core.Serving.{snapshot_eq}

module _ {R : Ranke} (c : Server) (req : Request R) (x : Exchange R) where
  contributing :
      (t : Exchange R)
      → IsIdentified c req x t
      → Effect c req x claim_contribute (contribute c req t).1
  contributing t i = elim (contribute-cases c req t) [
    | inl (e, h) ↦ quietly c req x claim_contribute t (contribute c req t).1 (ap (λ s. s.1) h) i
    | inr l ↦
        let merged = carry_out (R.narrow l.asked l.offered) l.asked.branches l.body l.y in
        contributed refl t i l refl (
          subst
            (λ r.
              r.1 ≡ record x { world = r.1.world; principal = r.1.principal; report = r.1.report })
            (sym l.calls)
            (merging c req x t l.y merged.1
              (carry_out-Worlds (R.narrow l.asked l.offered) l.asked.branches l.body l.y)
              l.unchanged i))
  ]

  starting :
      (a : R.Archive) (t : Exchange R)
      → R.get_archive t.world ≡ ok a
      → IsIdentified c req x t
      → Effect c req x verification_start (start_run req a t).1
  starting a t held i = elim (start_run-Runs req a t) [
    | inl h ↦ quietly c req x verification_start t (start_run req a t).1 h i
    | inr (cfg, k, h) ↦
        let op : Exchange R → Op =
          λ s. start_op (some (R.id_text (R.archive_head a))) (R.verify s.world a) cfg s.now in
        let from : R.get_archive x.world ≡ ok a =
          sym (ap (λ (s : Exchange R). R.get_archive s.world) i.frame) ∙ held in
        running c req x verification_start (op t) t (start_run req a t).1 refl
          (a, cfg, from, k, ap op i.frame) h i
  ]

  answer-Effect :
      (op : Operation) (a : R.Archive) (t : Exchange R)
      → R.get_archive t.world ≡ ok a
      → IsIdentified c req x t
      → Effect c req x op (answer c op req a t).1
  unfolding answer verification list_runs
  answer-Effect claim_query a t held i = quietly c req x _ t _ (query-Reports req a t) i
  answer-Effect claim_get a t held i = quietly c req x _ t _ (claim-Reports req a t) i
  answer-Effect claim_content a t held i = quietly c req x _ t _ (content-Reports req a t) i
  answer-Effect claim_contribute a t held i = contributing t i
  answer-Effect claim_delete a t held i = quietly c req x _ t _ refl i
  answer-Effect branch_head a t held i = quietly c req x _ t _ (head-Reports req a t) i
  answer-Effect branch_info a t held i = quietly c req x _ t _ (info-Reports req a t) i
  answer-Effect branch_list a t held i = quietly c req x _ t _ (listing-Reports a t) i
  answer-Effect archive_info a t held i = quietly c req x _ t _ (describe-Reports a t) i
  answer-Effect layer_list a t held i = quietly c req x _ t _ refl i
  answer-Effect layer_info a t held i = quietly c req x _ t _ refl i
  answer-Effect health_get a t held i = quietly c req x _ t _ refl i
  answer-Effect subject_get a t held i = quietly c req x _ t _ refl i
  answer-Effect verification_start a t held i = starting a t held i
  answer-Effect verification_list a t held i = quietly c req x _ t _ refl i
  answer-Effect verification_get a t held i = quietly c req x _ t _ (get_run-Reports req a t) i
  answer-Effect verification_cancel a t held i =
      running c req x _ (stop_op req.ver_id) t _ refl refl (stop_run-Runs req a t) i
  answer-Effect verification_delete a t held i =
      running c req x _ (remove_op req.ver_id) t _ refl refl (delete_run-Runs req t) i
  answer-Effect dev_clock_advance a t held i = quietly c req x _ t _ refl i

  on_archive-Effect :
      (op : Operation) (t : Exchange R)
      → IsIdentified c req x t
      → Effect c req x op (on_archive c op req t).1
  unfolding on_archive
  on_archive-Effect op t i = elim (Result-cases (archive {R = R} c t).0) [
    | inl (e, h) ↦ rw (h) (quietly c req x op t (archive {R = R} c t).1 (archive-Reports c t) i)
    | inr (a, h) ↦
        let s = (archive {R = R} c t).1 in
        let u = record s { report = s.report ++ (snapshot (R.id_text (R.archive_head a)) ∷ []) } in
        rw (h) (
          answer-Effect op a u
            (ap (λ (s : Exchange R). R.get_archive s.world) (archive-Reports c t)
              ∙ snapshot_eq c t a h)
            (still c req x s u refl (still c req x t s (archive-Reports c t) i)))
  ]

  dev_clock-Effect :
      (t : Exchange R)
      → IsIdentified c req x t
      → Effect c req x dev_clock_advance (Read.dev_clock c req t).1
  unfolding Read.dev_clock
  dev_clock-Effect t i = elim (Bool-cases c.has_dev_clock) [
    | inl e ↦
        let at = advance req.dev_clock_at t.clock in
        let report = t.report ++ (clock_advanced at ∷ []) in
        simp (e) (
          advanced refl e (
            ap {A = Exchange R}
              (λ s. record s { clock = advance req.dev_clock_at s.clock; report = report })
              i.frame))
    | inr e ↦ simp (e) (quietly c req x dev_clock_advance t t refl i)
  ]

  dispatch-Effect :
      (op : Operation) (t : Exchange R)
      → IsIdentified c req x t
      → Effect c req x op (dispatch c op req t).1
  unfolding dispatch Read.health Read.subject Read.layers
  dispatch-Effect health_get t i = quietly c req x _ t _ refl i
  dispatch-Effect subject_get t i = quietly c req x _ t _ refl i
  dispatch-Effect layer_list t i = quietly c req x _ t _ refl i
  dispatch-Effect layer_info t i = quietly c req x _ t _ refl i
  dispatch-Effect dev_clock_advance t i = dev_clock-Effect t i
  dispatch-Effect claim_query t i = on_archive-Effect _ t i
  dispatch-Effect claim_get t i = on_archive-Effect _ t i
  dispatch-Effect claim_content t i = on_archive-Effect _ t i
  dispatch-Effect claim_contribute t i = on_archive-Effect _ t i
  dispatch-Effect claim_delete t i = on_archive-Effect _ t i
  dispatch-Effect branch_head t i = on_archive-Effect _ t i
  dispatch-Effect branch_info t i = on_archive-Effect _ t i
  dispatch-Effect branch_list t i = on_archive-Effect _ t i
  dispatch-Effect archive_info t i = on_archive-Effect _ t i
  dispatch-Effect verification_start t i = on_archive-Effect _ t i
  dispatch-Effect verification_list t i = on_archive-Effect _ t i
  dispatch-Effect verification_get t i = on_archive-Effect _ t i
  dispatch-Effect verification_cancel t i = on_archive-Effect _ t i
  dispatch-Effect verification_delete t i = on_archive-Effect _ t i

  -- Whatever a request asks and however it ends, it writes its principal and its report, and beside
  -- them one part at most: the library's world only as a licensed contribution of an authenticated
  -- principal does; the runs only by the operation of the registry that it asks for, the start of a run
  -- of its configuration at the archive's head, or the cancel or the deletion of the run with its id; and the dev clock only by its operation, on a server that has it.
  pub handle-Effect : Effect c req x req.op (handle c req x).1
  unfolding execute
  handle-Effect = elim (Result-cases (Auth.authenticate c.auth req.credential)) [
    | inl (e, h) ↦
        subst (λ t. Effect c req x req.op t.1) (sym (handle_unauthenticated c req x e h))
          (reported refl)
    | inr (p, h) ↦
        let t = identified c req x p in
        subst (λ s. Effect c req x req.op s.1) (sym (handle_authenticated c req x p h))
          (elim (Bool-cases (is_permitted c req x p)) [
            | inl e ↦ rw (e) (
                dispatch-Effect req.op
                  (record t { report = t.report ++ (permit_line c req x ∷ []) })
                  (record { known = h; frame = refl }))
            | inr e ↦ rw (e) (reported refl)
          ])
  ]
