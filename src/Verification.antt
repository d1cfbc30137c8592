-- ===== src/Verification.antt =====
-- internal/core/verification.go: the registry of verification runs. Each operation is one or more
-- critical sections under the registry's mutex; `start` has two, `reserve` and `enrol`, with the
-- library's `Verify` between them. A time is a number, and a cancelled context is an entry of
-- `cancelled`. Below stand the invariants, over sequences of whole operations and over interleavings
-- of the critical sections.
pub mod Values
pub mod Steps
pub mod Invariant
pub mod Operations
pub mod Limit
pub mod Lifecycle
pub mod Listing
pub mod Starting
mod Tests
use ranke_db.Base.{
  ℕ, suc, ◌+◌, Bool, true, false, not, Option, none, some, List, [], ◌∷◌, ◌++◌, map, Text, text,
  text_eq, Result, ok, err, ◌>>=◌, leb, ◌==◌, if◌then◌else◌,
}
use mathlib.Core.List.{reverse}
use ranke_db.Base.Decimal.{decimal}
use ranke_db.Base.Dict.{Dict, lookup, insert, delete}
use ranke_db.Errors.{Fault, fault, not_found, busy, not_implemented, map_lib_error}
use Values.{
  RunStatus, running, complete, stopped, error, Config, Report, Failure, LibFailure, Handle,
  is_running,
}

pub record Run : Type 0 where
  pub report : Report

pub record Registry : Type 0 where
  pub runs : Dict Run
  pub order : List Text
  pub max : ℕ
  pub next_id : ℕ
  pub cancelled : List Text

-- `newRegistry`, its clock being an argument of the operations; a negative bound is 0 here
unfoldable pub new_registry : ℕ → Registry
new_registry max = record {
  runs = [];
  order = [];
  max = if max == 0 then 1 else max;
  next_id = 0;
  cancelled = [];
}

unfoldable pub active_in : Dict Run → ℕ
active_in [] = 0
active_in ((id, held) ∷ runs) =
    let rest = active_in runs in if is_running held.report.status then rest + 1 else rest

-- `active`
abbrev pub active : Registry → ℕ
active r = active_in r.runs

-- the id of the n-th start
abbrev pub run_id : ℕ → Text
run_id n = text "ver-" ++ decimal n

-- the first critical section of `start`
unfoldable pub reserve : Registry → Result Fault (Text × Registry)
reserve r =
    if leb r.max (active r)
    then err (fault busy)
    else ok (run_id (r.next_id + 1), record r { next_id = r.next_id + 1 })

-- the report that `start` builds
abbrev pub fresh_report : Text → Config → Text → ℕ → Report
fresh_report id cfg head now = record {
  id = id;
  config = cfg;
  head = head;
  status = running;
  started_at = now;
  completed_at = none;
  claims_checked = 0;
  passed = false;
  failures = [];
}

-- the second critical section of `start`
unfoldable pub enrol : Registry → Report → Registry
enrol r report = record r {
  runs = insert report.id (record { report = report }) r.runs;
  order = r.order ++ (report.id ∷ []);
}

-- `verifyOptions`: whether the walk re-reads external content
unfoldable pub verify_options : Config → Bool
verify_options cfg = text_eq cfg.depth (text "full-content")

-- `start` with no other operation between its parts: `head` is the archive's, none for no archive,
-- and `verify` the library's `Verify` with or without external content, the error if it returns one
unfoldable pub start :
    Registry → Option Text → (Bool → Option Fault) → Config → ℕ → Result Fault Report × Registry
start r none verify cfg now = (err (fault not_implemented), r)
start r (some head) verify cfg now = elim (reserve r) [
  | err e ↦ (err e, r)
  | ok (id, r') ↦ elim (verify (verify_options cfg)) [
    | some e ↦ (err (map_lib_error e), record r' { cancelled = id ∷ r'.cancelled })
    | none ↦ let report = fresh_report id cfg head now in (ok report, enrol r' report)
  ]
]

-- `failureDetail` and `idString`: a nil renders as the empty text
abbrev pub or_empty : Option Text → Text
or_empty none = []
or_empty (some s) = s

-- one round of the loop of `absorb`
abbrev pub failure_of : Config → LibFailure → Failure
failure_of cfg f = record {
  id = or_empty f.id;
  mode = text "invalid-content";
  layer = cfg.layer;
  detail = or_empty f.detail;
}

abbrev pub is_empty {ℓ} : {A : Type ℓ} → List A → Bool
is_empty [] = true
is_empty (_ ∷ _) = false

-- `absorb`
unfoldable pub absorb : Report → Handle → Report
absorb report handle = record report {
  claims_checked = handle.verified;
  failures = map (failure_of report.config) handle.failures;
  passed = is_empty handle.failures;
}

-- the status that `collect` leaves
abbrev pub settle : RunStatus → Bool → RunStatus
settle running failed = if failed then error else complete
settle complete failed = complete
settle stopped failed = stopped
settle error failed = error

-- what `collect` makes of a report
unfoldable pub collected : Report → Handle → ℕ → Report
collected report handle now =
    let absorbed = absorb report handle in
    record absorbed { completed_at = some now; status = settle absorbed.status handle.failed }

-- `collect`, once the walk is done
unfoldable pub collect : Registry → Text → Handle → ℕ → Registry
collect r id handle now = elim (lookup id r.runs) [
  | none ↦ r
  | some held ↦ record r {
    runs = insert id (record { report = collected held.report handle now }) r.runs;
  }
]

-- `get`
unfoldable pub get : Registry → Text → Result Fault Report
get r id = elim (lookup id r.runs) [ none ↦ err (fault not_found) | some held ↦ ok held.report ]

-- the reports that are held for ids, in the order of the ids
unfoldable pub reports_of : Dict Run → List Text → List Report
reports_of runs [] = []
reports_of runs (id ∷ ids) =
    let rest = reports_of runs ids in
    elim (lookup id runs) [ none ↦ rest | some held ↦ held.report ∷ rest ]

-- `list`
unfoldable pub list : Registry → List Report
list r = reports_of r.runs (reverse r.order)

-- `stop`, its last read by `get` following at once
unfoldable pub stop : Registry → Text → Result Fault Report × Registry
stop r id = elim (lookup id r.runs) [
  | none ↦ (err (fault not_found), r)
  | some held ↦
      if not (is_running held.report.status)
      then (ok held.report, r)
      else let r' = record r {
        runs = insert id (record { report = record (held.report) { status = stopped } }) r.runs;
        cancelled = id ∷ r.cancelled;
      } in
        (get r' id, r')
]

-- `removeID`
unfoldable pub remove_id : List Text → Text → List Text
remove_id [] id = []
remove_id (held ∷ ids) id =
    let rest = remove_id ids id in if text_eq held id then rest else held ∷ rest

-- `remove`; none is success
unfoldable pub remove : Registry → Text → Option Fault × Registry
remove r id = elim (lookup id r.runs) [
  | none ↦ (some (fault not_found), r)
  | some held ↦ (
    none,
    record r {
      runs = delete id r.runs;
      order = remove_id r.order id;
      cancelled = id ∷ r.cancelled;
    },
  )
]
