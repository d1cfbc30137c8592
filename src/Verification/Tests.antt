-- ===== src/Verification/Tests.antt =====
-- Runs at concrete inputs.
use ranke_db.Base.{◌+◌, ◌≡◌, refl, Bool, false, Option, none, some, [], ◌∷◌, text, ok}
use ranke_db.Base.Decimal.{decimal}
use ranke_db.Base.Dict.{insert}
use ranke_db.Errors.{Fault}
use ranke_db.Verification.Values.{Config, Report, Handle}
use ranke_db.Verification.{
  Registry, new_registry, active, active_in, reserve, enrol, fresh_report, start, stop,
}
use ranke_db.Verification.Steps.{System, Reach, here, IsSound, new_registry-IsSound}
use ranke_db.Verification.Invariant.{Reach-IsSound}
use ranke_db.Verification.Limit.{overlap_exceeds}
use ranke_db.Verification.Lifecycle.{stop_idem}

abbrev cfg : Config
cfg = record {
  closure = text "main";
  layer = [];
  depth = text "completeness";
  content_threshold = 0;
}

abbrev verifies : Bool → Option Fault
verifies _ = none

abbrev empty : Registry
empty = record { runs = []; order = []; max = 1; next_id = 0; cancelled = [] }

new_is_empty : new_registry 0 ≡ empty
unfolding new_registry
new_is_empty = refl

abbrev first : Report
first = fresh_report (text "ver-1") cfg (text "head") 7

abbrev one_running : Registry
one_running = record {
  runs = (text "ver-1", record { report = first }) ∷ [];
  order = text "ver-1" ∷ [];
  max = 1;
  next_id = 1;
  cancelled = [];
}

first_starts : start empty (some (text "head")) verifies cfg 7 ≡ (ok first, one_running)
unfolding start reserve enrol active_in decimal insert
first_starts = refl

second_is_busy : (start one_running (some (text "head")) verifies cfg 8).1 ≡ one_running
unfolding start reserve active_in
second_is_busy = refl

empty-IsSound : IsSound (record { registry = empty; pending = [] })
unfolding new_registry
empty-IsSound = new_registry-IsSound 1

stop_idem_example :
    stop (stop one_running (text "ver-1")).1 (text "ver-1") ≡ stop one_running (text "ver-1")
stop_idem_example = stop_idem one_running (text "ver-1")

abbrev walk : Handle
walk = record { verified = 3; failures = []; failed = false }

-- Under the default bound of one run, two runs walk at once.
overlap_exceeds_example :
    (t : System) × Reach (record { registry = empty; pending = [] }) t
    × (active t.registry ≡ t.registry.max + 1)
unfolding active_in
overlap_exceeds_example = overlap_exceeds empty (text "head") (text "head") cfg 7 empty-IsSound refl

Reach-IsSound_example : IsSound (record { registry = new_registry 1; pending = [] })
Reach-IsSound_example = Reach-IsSound 1 here
