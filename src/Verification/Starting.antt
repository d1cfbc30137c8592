-- ===== src/Verification/Starting.antt =====
-- What the start of a run that succeeds has done, and what one that fails leaves.
use ranke_db.Base.{
  ℕ, ◌+◌, ◌<◌, ◌≡◌, ◌≢◌, refl, ◌∙◌, inl, inr, Bool, true, false, Option, none, some, [], ◌∷◌, Text,
  text_eq_iff, text_eq_refl, ok, err, arith, leb, Bool-cases, Option-cases,
}
use mathlib.Core.List.{reverse, reverse-append}
use ranke_db.Base.Dict.{lookup, lookup-insert}
use ranke_db.Base.Keys.{count}
use ranke_db.Errors.{Fault, fault, not_found, busy}
use ranke_db.Verification.Values.{Config, Report}
use ranke_db.Verification.{
  Registry, Run, run_id, active, reserve, enrol, fresh_report, start, verify_options, get, list,
}
use ranke_db.Verification.Steps.{reserve_step, IsSound, fresh_in_runs}
use ranke_db.Verification.Invariant.{Step-IsSound}
use ranke_db.Verification.Limit.{reserve_ok}
use mathlib.Core.Path.{subst}
use ranke_db.Verification.Lifecycle.{lookup_put}
use ranke_db.Verification.Listing.{count-reverse, listed_first}

-- What a start that succeeds has done.
pub record IsStarted (r r' : Registry) (head : Text) (cfg : Config) (now : ℕ) (report : Report)
    : Type 0 where
  pub had_room : active r < r.max
  pub is_fresh : report ≡ fresh_report report.id cfg head now
  pub unknown : get r report.id ≡ err (fault not_found)
  pub readable : get r' report.id ≡ ok report
  pub others : (j : Text) → report.id ≢ j → get r' j ≡ get r j
  pub listed : list r' ≡ report ∷ list r

enrolled-IsStarted :
    (r : Registry) (head : Text) (cfg : Config) (now : ℕ)
    → active r < r.max
    → count (run_id (r.next_id + 1)) r.order ≡ 0
    → lookup (run_id (r.next_id + 1)) r.runs ≡ none
    → let report = fresh_report (run_id (r.next_id + 1)) cfg head now in
      IsStarted r (enrol (record r { next_id = r.next_id + 1 }) report) head cfg now report
unfolding enrol get list
enrolled-IsStarted r head cfg now room unused absent =
    let id = run_id (r.next_id + 1) in
    let held : Run = record { report = fresh_report id cfg head now } in
    record {
      had_room = room;
      is_fresh = refl;
      unknown = ground (arith, absent);
      readable = ground (arith, lookup_put id held r.runs);
      others = λ j ne. ground (arith, lookup-insert id j held r.runs, text_eq_iff id j, ne);
      listed =
          rw (reverse-append r.order (id ∷ []))
            (listed_first id held r.runs (reverse r.order) (count-reverse id r.order ∙ unused));
    }

reserve_full : (r : Registry) → leb r.max (active r) ≡ true → reserve r ≡ err (fault busy)
unfolding reserve
reserve_full r h = rw h

unused_id :
    (r : Registry) (id : Text)
    → IsSound (record { registry = record r { next_id = r.next_id + 1 }; pending = id ∷ [] })
    → count id r.order ≡ 0
unfolding count
unused_id r id s = ground (arith, s.once id, text_eq_refl id)

started :
    (r : Registry) (head : Text) (verify : Bool → Option Fault) (cfg : Config) (now : ℕ)
    (report : Report)
    → IsSound (record { registry = r; pending = [] })
    → (start r (some head) verify cfg now).0 ≡ ok report
    → leb r.max (active r) ≡ false
    → verify (verify_options cfg) ≡ none
    → IsStarted r (start r (some head) verify cfg now).1 head cfg now report
unfolding start
started r head verify cfg now report s e room v =
    let id = run_id (r.next_id + 1) in
    let r' : Registry = record r { next_id = r.next_id + 1 } in
    let ready = reserve_ok r (ground arith) in
    let s' = Step-IsSound (reserve_step (record { registry = r; pending = [] }) id r' ready) s in
    let same : fresh_report id cfg head now ≡ report = ground (arith, ready, v) in
    rw (ready, start)
      (rw (v, start)
        (subst (IsStarted r (enrol r' (fresh_report id cfg head now)) head cfg now) same (
          enrolled-IsStarted r head cfg now (ground arith) (unused_id r id s')
            (fresh_in_runs r' [] [] id s'))))

-- A start that succeeds on a sound registry had room for one more run. Its report is the fresh one
-- of a running run under an id that was unknown before; it is what is read under that id, it comes
-- first in the listing, and every other run reads and is listed as before.
pub start-IsStarted :
    (r : Registry) (head : Option Text) (verify : Bool → Option Fault) (cfg : Config) (now : ℕ)
    (report : Report)
    → IsSound (record { registry = r; pending = [] })
    → (start r head verify cfg now).0 ≡ ok report
    → (h : Text) × (head ≡ some h)
      × (verify (verify_options cfg) ≡ none)
      × IsStarted r (start r head verify cfg now).1 h cfg now report
unfolding start
start-IsStarted r none verify cfg now report s e = cc
start-IsStarted r (some head) verify cfg now report s e = elim (Bool-cases (leb r.max (active r))) [
  | inl full ↦ ground (arith, reserve_full r full)
  | inr room ↦ elim (Option-cases (verify (verify_options cfg))) [
    | inl v ↦ (head, refl, v, started r head verify cfg now report s e room v)
    | inr (x, v) ↦ ground (arith, reserve_ok r (ground arith))
  ]
]

-- A start that fails leaves every run readable as before, and the listing.
pub start_refused :
    (r : Registry) (head : Option Text) (verify : Bool → Option Fault) (cfg : Config) (now : ℕ)
    (e : Fault) (j : Text)
    → (start r head verify cfg now).0 ≡ err e
    → (get (start r head verify cfg now).1 j ≡ get r j)
      × (list (start r head verify cfg now).1 ≡ list r)
unfolding start reserve get list
start_refused r none verify cfg now e j h = (refl, refl)
start_refused r (some head) verify cfg now e j h = (ground arith, ground arith)
