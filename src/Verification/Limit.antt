-- ===== src/Verification/Limit.antt =====
-- The bound on the runs that are running: kept by whole operations, and broken where two starts
-- overlap.
use ranke_db.Base.{
  ℕ, ◌+◌, ◌≤◌, ◌<◌, ◌≡◌, refl, inl, inr, Bool, Option, none, some, List, [], ◌∷◌, Text, ok, arith,
  ◌∙◌, Bool-cases, Option-cases, if◌then◌else◌, ◌==◌,
}
use ranke_db.Base.Dict.{lookup}
use ranke_db.Errors.{Fault}
use ranke_db.Verification.Values.{Config, Report, Handle, running, stopped, is_running}
use ranke_db.Verification.{
  Registry, Run, new_registry, active, active_in, reserve, enrol, fresh_report, start, absorb,
  collected, collect, stop, remove, run_id,
}
use ranke_db.Verification.Steps.{
  System, Step, reserve_step, enrol_step, Reach, here, next, IsSound, fresh_in_runs,
}
use ranke_db.Verification.Invariant.{Step-IsSound, Reach-IsSound_from}
use ranke_db.Verification.Operations.{
  active_in-insert_new, weight, active_in-insert-le, active_in-insert_old, active_in-delete-le,
}

-- a whole operation that changes the registry
pub data Op : Type 0 where
  start_op : Option Text → (Bool → Option Fault) → Config → ℕ → Op
  collect_op : Text → Handle → ℕ → Op
  stop_op remove_op : Text → Op

unfoldable pub apply : Registry → Op → Registry
apply r (start_op head verify cfg now) = (start r head verify cfg now).1
apply r (collect_op id handle now) = collect r id handle now
apply r (stop_op id) = (stop r id).1
apply r (remove_op id) = (remove r id).1

unfoldable pub apply_all : Registry → List Op → Registry
apply_all r [] = r
apply_all r (op ∷ ops) = apply_all (apply r op) ops

-- no more running than before, and the bound is the same
record IsCalmer (r r' : Registry) : Type 0 where
  fewer : active r' ≤ active r
  same : r'.max ≡ r.max

settled-weight :
    (held : Run) (handle : Handle) (now : ℕ)
    → weight (record { report = collected held.report handle now }) ≡ 0
unfolding collected absorb
settled-weight held handle now = ground arith

collect-IsCalmer :
    (r : Registry) (id : Text) (handle : Handle) (now : ℕ) → IsCalmer r (collect r id handle now)
unfolding collect
collect-IsCalmer r id handle now = elim (Option-cases (lookup id r.runs)) [
  | inl e ↦ rw (e, collect) (record { fewer = omega arith; same = refl })
  | inr (held, e) ↦
      rw (e, collect)
        (record {
          fewer = omega (
            arith,
            active_in-insert_old id (record { report = collected held.report handle now }) held
                r.runs e,
            settled-weight held handle now,
          );
          same = refl;
        })
]

stop-IsCalmer : (r : Registry) (id : Text) → IsCalmer r (stop r id).1
unfolding stop
stop-IsCalmer r id = elim (Option-cases (lookup id r.runs)) [
  | inl e ↦ rw (e, stop) (record { fewer = omega arith; same = refl })
  | inr (held, e) ↦ elim (Bool-cases (is_running held.report.status)) [
    | inl f ↦
        rw (e, f, stop)
          (record {
            fewer = omega (
              arith,
              active_in-insert_old id
                  (record { report = record (held.report) { status = stopped } }) held r.runs e,
            );
            same = refl;
          })
    | inr f ↦ rw (e, f, stop) (record { fewer = omega arith; same = refl })
  ]
]

remove-IsCalmer : (r : Registry) (id : Text) → IsCalmer r (remove r id).1
unfolding remove
remove-IsCalmer r id = elim (Option-cases (lookup id r.runs)) [
  | inl e ↦ rw (e, remove) (record { fewer = omega arith; same = refl })
  | inr (held, e) ↦ rw (e, remove) (record { fewer = active_in-delete-le id r.runs; same = refl })
]

abbrev pub IsBounded : Registry → Type 0
IsBounded r = active r ≤ r.max

calmer-IsBounded : {r r' : Registry} → IsCalmer r r' → IsBounded r → IsBounded r'
calmer-IsBounded c b = omega (arith, c.fewer, c.same)

start-IsBounded :
    (r : Registry) (head : Option Text) (verify : Bool → Option Fault) (cfg : Config) (now : ℕ)
    → IsBounded r
    → IsBounded (start r head verify cfg now).1
unfolding start reserve enrol
start-IsBounded r none verify cfg now b = b
start-IsBounded r (some head) verify cfg now b = ground (
  arith,
  active_in-insert-le (run_id (r.next_id + 1))
      (record { report = fresh_report (run_id (r.next_id + 1)) cfg head now }) r.runs,
)

apply-IsBounded : (r : Registry) (op : Op) → IsBounded r → IsBounded (apply r op)
unfolding apply
apply-IsBounded r (start_op head verify cfg now) b = start-IsBounded r head verify cfg now b
apply-IsBounded r (collect_op id handle now) b =
    calmer-IsBounded (collect-IsCalmer r id handle now) b
apply-IsBounded r (stop_op id) b = calmer-IsBounded (stop-IsCalmer r id) b
apply-IsBounded r (remove_op id) b = calmer-IsBounded (remove-IsCalmer r id) b

apply_all-IsBounded : (ops : List Op) (r : Registry) → IsBounded r → IsBounded (apply_all r ops)
unfolding apply_all
apply_all-IsBounded [] r b = b
apply_all-IsBounded (op ∷ ops) r b = apply_all-IsBounded ops (apply r op) (apply-IsBounded r op b)

max-apply : (r : Registry) (op : Op) → (apply r op).max ≡ r.max
unfolding apply start reserve enrol
max-apply r (start_op none verify cfg now) = refl
max-apply r (start_op (some head) verify cfg now) = ground arith
max-apply r (collect_op id handle now) = (collect-IsCalmer r id handle now).same
max-apply r (stop_op id) = (stop-IsCalmer r id).same
max-apply r (remove_op id) = (remove-IsCalmer r id).same

max-apply_all : (ops : List Op) (r : Registry) → (apply_all r ops).max ≡ r.max
unfolding apply_all
max-apply_all [] r = refl
max-apply_all (op ∷ ops) r = max-apply_all ops (apply r op) ∙ max-apply r op

-- After any whole operations on a new registry, each ending before the next begins, no more runs
-- are running than the bound that it was made with, which is 1 for a bound of 0.
pub active-le-max :
    (max : ℕ) (ops : List Op)
    → active (apply_all (new_registry max) ops) ≤ (if max == 0 then 1 else max)
unfolding new_registry active_in
active-le-max max ops =
    let b = apply_all-IsBounded ops (new_registry max) (omega arith) in
    let e : (apply_all (new_registry max) ops).max ≡ (new_registry max).max =
      max-apply_all ops (new_registry max) in
    ground (arith, b, e)

pub reserve_ok :
    (r : Registry)
    → active r < r.max
    → reserve r ≡ ok (run_id (r.next_id + 1), record r { next_id = r.next_id + 1 })
unfolding reserve
reserve_ok r h = ground arith

active_in_enrol :
    (r : Registry) (report : Report)
    → report.status ≡ running
    → lookup report.id r.runs ≡ none
    → active (enrol r report) ≡ active r + 1
unfolding enrol
active_in_enrol r report s h =
    ground (arith, active_in-insert_new report.id (record { report = report }) r.runs h)

module _ (r : Registry) (head head' : Text) (cfg : Config) (now : ℕ) where
  abbrev first_id : Text
  first_id = run_id (r.next_id + 1)

  abbrev second_id : Text
  second_id = run_id (r.next_id + 1 + 1)

  -- both have reserved, and neither has enrolled
  abbrev waiting : Registry
  waiting = record r { next_id = r.next_id + 1 + 1 }

  abbrev entered : Registry
  entered = enrol waiting (fresh_report first_id cfg head now)

  abbrev both_waiting : System
  both_waiting = record { registry = waiting; pending = first_id ∷ second_id ∷ [] }

  abbrev one_waiting : System
  one_waiting = record { registry = entered; pending = second_id ∷ [] }

  abbrev overlapped : System
  overlapped = record {
    registry = enrol entered (fresh_report second_id cfg head' now);
    pending = [];
  }

  Reach-both_waiting :
      active r + 1 ≡ r.max → Reach (record { registry = r; pending = [] }) both_waiting
  Reach-both_waiting room =
      let s : System = record { registry = r; pending = [] } in
      let r' : Registry = record r { next_id = r.next_id + 1 } in
      let s' : System = record { registry = r'; pending = first_id ∷ [] } in
      next (next here (reserve_step s first_id r' (reserve_ok r (omega arith))))
        (reserve_step s' second_id waiting (reserve_ok r' (omega arith)))

  Step-one_waiting : Step both_waiting one_waiting
  Step-one_waiting = enrol_step waiting [] (second_id ∷ []) first_id head cfg now

  Step-overlapped : Step one_waiting overlapped
  Step-overlapped = enrol_step entered [] [] second_id head' cfg now

  active-entered : IsSound both_waiting → active entered ≡ active r + 1
  active-entered h =
      active_in_enrol waiting (fresh_report first_id cfg head now) refl
        (fresh_in_runs waiting [] (second_id ∷ []) first_id h)

  active-overlapped : IsSound one_waiting → active (overlapped).registry ≡ active entered + 1
  active-overlapped h =
      active_in_enrol entered (fresh_report second_id cfg head' now) refl
        (fresh_in_runs entered [] [] second_id h)

  -- With room for one more run, two starts that overlap both get in: the second reserves after the
  -- first has and before it enrols its run, and one run too many is running.
  pub overlap_exceeds :
      IsSound (record { registry = r; pending = [] })
      → active r + 1 ≡ r.max
      → (t : System) × Reach (record { registry = r; pending = [] }) t
        × (active t.registry ≡ t.registry.max + 1)
  unfolding enrol
  overlap_exceeds h room =
      let path = Reach-both_waiting room in
      let h₂ = Reach-IsSound_from path h in
      let h₁ = Step-IsSound Step-one_waiting h₂ in
      (
        overlapped,
        next (next path Step-one_waiting) Step-overlapped,
        omega (arith, active-entered h₂, active-overlapped h₁),
      )
