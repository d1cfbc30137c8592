-- ===== src/Verification/Lifecycle.antt =====
-- What a client sees of a run between its start and its removal.
use ranke_db.Base.{
  ℕ, ◌≡◌, inl, inr, none, some, Text, text_eq, text_eq_iff, text_eq_refl, ok, err, arith,
  Bool-cases, Option-cases, if◌then◌else◌,
}
use ranke_db.Base.Dict.{Dict, lookup, insert, lookup-insert, lookup-delete}
use ranke_db.Errors.{fault, not_found}
use ranke_db.Verification.Values.{complete, stopped, error, Report, Handle, is_running}
use ranke_db.Verification.{Registry, Run, absorb, collected, collect, get, stop, remove}

pub lookup_put :
    (id : Text) (held : Run) (runs : Dict Run) → lookup id (insert id held runs) ≡ some held
lookup_put id held runs = rw lookup-insert (rw text_eq_refl)

-- Stopping a run that is stopped already gives the same report and changes nothing further.
pub stop_idem : (r : Registry) (id : Text) → stop (stop r id).1 id ≡ stop r id
unfolding stop get
stop_idem r id = elim (Option-cases (lookup id r.runs)) [
  | inl e ↦ ground arith
  | inr (held, e) ↦ elim (Bool-cases (is_running held.report.status)) [
    | inl f ↦ ground (
      arith,
      lookup_put id (record { report = record (held.report) { status = stopped } }) r.runs,
    )
    | inr f ↦ ground arith
  ]
]

-- What stopping makes of a report: only a status that is running changes.
abbrev pub stopped_report : Report → Report
stopped_report report =
    if is_running report.status then record report { status = stopped } else report

-- Stopping an unknown run is not found and changes nothing; stopping a run returns its report with
-- all its findings, the status stopped if it was running and as it was if not, and that report is
-- what is read of it afterwards, while every other run reads as before.
pub stop_lem :
    (r : Registry) (id j : Text)
    → ((stop r id).0 ≡ elim (get r id) [ err e ↦ err e | ok report ↦ ok (stopped_report report) ])
      × (get (stop r id).1 j ≡ (if text_eq id j then (stop r id).0 else get r j))
unfolding stop get
stop_lem r id j = elim (Option-cases (lookup id r.runs)) [
  | inl e ↦ (ground arith, ground (arith, text_eq_iff id j))
  | inr (held, e) ↦ (
    ground (
      arith,
      lookup_put id (record { report = record (held.report) { status = stopped } }) r.runs,
    ),
    ground (
      arith,
      text_eq_iff id j,
      text_eq_refl id,
      lookup-insert id j (record { report = record (held.report) { status = stopped } }) r.runs,
      lookup-insert id id (record { report = record (held.report) { status = stopped } }) r.runs,
    ),
  )
]

-- Removing a run that is there drops it and it alone; an unknown run is not found. A walk that ends
-- after its run was removed records nothing.
pub remove_lem :
    (r : Registry) (id j : Text) (handle : Handle) (now : ℕ)
    → ((remove r id).0 ≡ elim (get r id) [ err e ↦ some e | ok _ ↦ none ])
      × (get (remove r id).1 j ≡ (if text_eq id j then err (fault not_found) else get r j))
      × (collect (remove r id).1 id handle now ≡ (remove r id).1)
unfolding remove get collect
remove_lem r id j handle now = elim (Option-cases (lookup id r.runs)) [
  | inl e ↦ (ground arith, ground (arith, text_eq_iff id j), ground arith)
  | inr (held, e) ↦ (
    ground arith,
    ground (arith, lookup-delete id j r.runs),
    ground (arith, lookup-delete id id r.runs, text_eq_refl id),
  )
]

-- A walk that ends leaves its counters and findings on the report of its run and on no other; a run
-- that was stopped stays stopped, and one that was still running is complete, or in error where the
-- walk failed.
pub collect_lem :
    (r : Registry) (id j : Text) (handle : Handle) (now : ℕ)
    → get (collect r id handle now) j ≡ elim (get r j) [
      | err e ↦ err e
      | ok report ↦ ok (
          if text_eq id j
          then record (absorb report handle) {
            completed_at = some now;
            status =
                if is_running report.status
                then if handle.failed then error else complete
                else report.status;
          }
          else report)
    ]
unfolding collect get collected absorb
collect_lem r id j handle now = elim (Option-cases (lookup id r.runs)) [
  | inl e ↦ ground (arith, text_eq_iff id j)
  | inr (held, e) ↦ ground (
    arith,
    text_eq_iff id j,
    lookup-insert id j (record { report = collected held.report handle now }) r.runs,
  )
]
