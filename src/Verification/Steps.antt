-- ===== src/Verification/Steps.antt =====
-- The registry's critical sections as steps, and how a start, in two sections, keeps the ids apart.
-- A start that has reserved its id and not enrolled its run yet is pending.
use ranke_db.Base.{
  ℕ, ◌+◌, ◌≤◌, ◌≡◌, ◌≢◌, refl, sym, ap, ◌∙◌, none, List, [], ◌∷◌, ◌++◌, Text, text_eq_iff,
  text_eq_refl, All, All-append, All-append_left, All-append_right, drop, ok, arith,
}
use ranke_db.Base.Decimal.{decimal-injective}
use ranke_db.Base.Dict.{lookup}
use ranke_db.Base.Keys.{count, count-append, count-eq-zero, keys, keys-insert_new, lookup-eq-none}
use ranke_db.Verification.Values.{Config, Handle}
use ranke_db.Verification.{
  Registry, Run, run_id, new_registry, reserve, enrol, fresh_report, collect, stop, remove,
}

pub record System : Type 0 where
  pub registry : Registry
  pub pending : List Text

-- One critical section. `abandon` is a start whose `Verify` failed.
pub data Step : System → System → Type 0 where
  reserve_step :
      (s : System) (id : Text) (r : Registry)
      → reserve s.registry ≡ ok (id, r)
      → Step s (record { registry = r; pending = s.pending ++ (id ∷ []) })
  enrol_step :
      (r : Registry) (before after : List Text) (id head : Text) (cfg : Config) (now : ℕ)
      → Step
          (record { registry = r; pending = before ++ (id ∷ after) })
          (record { registry = enrol r (fresh_report id cfg head now); pending = before ++ after })
  abandon_step :
      (r : Registry) (before after : List Text) (id : Text)
      → Step
          (record { registry = r; pending = before ++ (id ∷ after) })
          (record {
            registry = record r { cancelled = id ∷ r.cancelled };
            pending = before ++ after;
          })
  collect_step :
      (s : System) (id : Text) (handle : Handle) (now : ℕ)
      → Step s (record s { registry = collect s.registry id handle now })
  stop_step : (s : System) (id : Text) → Step s (record s { registry = (stop s.registry id).1 })
  remove_step : (s : System) (id : Text) → Step s (record s { registry = (remove s.registry id).1 })

pub data Reach (s : System) : System → Type 0 where
  here : Reach s s
  next : {t u : System} → Reach s t → Step t u → Reach s u

-- the id of one of the first `n` starts
pub record Issued (n : ℕ) (id : Text) : Type 0 where
  pub number : ℕ
  pub within : number ≤ n
  pub named : id ≡ run_id number

-- The ids in start order are the keys of the runs; every id, pending ones included, was issued and
-- stands once.
pub record IsSound (s : System) : Type 0 where
  pub same_ids : keys s.registry.runs ≡ s.registry.order
  pub issued : All (Issued s.registry.next_id) (s.registry.order ++ s.pending)
  pub once : (id : Text) → count id s.registry.order + count id s.pending ≤ 1

pub new_registry-IsSound :
    (max : ℕ) → IsSound (record { registry = new_registry max; pending = [] })
unfolding new_registry keys count
new_registry-IsSound max = record { same_ids = refl; issued = tt; once = λ id. omega arith }

run_id-injective : (m n : ℕ) → run_id m ≡ run_id n → m ≡ n
run_id-injective m n e = decimal-injective m n (ap (drop 4) e)

Issued-mono : {m n : ℕ} {id : Text} → m ≤ n → Issued m id → Issued n id
Issued-mono h i = record { number = i.number; within = omega (arith, i.within); named = i.named }

All-Issued-mono : (m n : ℕ) (ids : List Text) → m ≤ n → All (Issued m) ids → All (Issued n) ids
All-Issued-mono m n [] h a = tt
All-Issued-mono m n (id ∷ ids) h a = (Issued-mono h a.0, All-Issued-mono m n ids h a.1)

-- The next id is none of those that were issued.
next-ne : (n : ℕ) (id : Text) → Issued n id → id ≢ run_id (n + 1)
next-ne n id i e =
    absurd (omega (arith, run_id-injective i.number (n + 1) (sym i.named ∙ e), i.within))

count-next : (n : ℕ) (ids : List Text) → All (Issued n) ids → count (run_id (n + 1)) ids ≡ 0
count-next n ids a = count-eq-zero (run_id (n + 1)) ids (All-next n ids a)
  where
    All-next : (n : ℕ) (ids : List Text) → All (Issued n) ids → All (λ id. id ≢ run_id (n + 1)) ids
    All-next n [] a = tt
    All-next n (id ∷ ids) a = (next-ne n id a.0, All-next n ids a.1)

pub reserved :
    (r r' : Registry) (id : Text)
    → reserve r ≡ ok (id, r')
    → (id ≡ run_id (r.next_id + 1)) × (r' ≡ record r { next_id = r.next_id + 1 })
unfolding reserve
reserved r r' id h = ground arith

-- one more pending start
abbrev pub reserved_system : System → System
reserved_system s = record {
  registry = record (s.registry) { next_id = s.registry.next_id + 1 };
  pending = s.pending ++ (run_id (s.registry.next_id + 1) ∷ []);
}

once_more :
    (k id : Text) (order pending : List Text)
    → count k order + count k pending ≤ 1
    → (id ≡ k → count k order + count k pending ≡ 0)
    → count k order + count k (pending ++ (id ∷ [])) ≤ 1
unfolding count
once_more k id order pending h fresh =
    ground (arith, count-append k pending (id ∷ []), text_eq_iff id k, fresh)

pub reserve-IsSound : (s : System) → IsSound s → IsSound (reserved_system s)
reserve-IsSound s h =
    let n = s.registry.next_id in
    let order = s.registry.order in
    let new = run_id (n + 1) in
    record {
      same_ids = h.same_ids;
      issued =
          All-append (Issued (n + 1)) order (s.pending ++ (new ∷ []))
            (All-Issued-mono n (n + 1) order (omega arith)
              (All-append_left (Issued n) order s.pending h.issued))
            (All-append (Issued (n + 1)) s.pending (new ∷ [])
              (All-Issued-mono n (n + 1) s.pending (omega arith)
                (All-append_right (Issued n) order s.pending h.issued))
              (record { number = n + 1; within = omega arith; named = refl }, tt));
      once = λ k. once_more k new order s.pending (h.once k) (λ e. omega (
        arith,
        count-append k order s.pending,
        ap (λ x. count x (order ++ s.pending)) e,
        count-next n (order ++ s.pending) h.issued,
      ));
    }

pub fresh_in_runs :
    (r : Registry) (before after : List Text) (id : Text)
    → IsSound (record { registry = r; pending = before ++ (id ∷ after) })
    → lookup id r.runs ≡ none
unfolding count
fresh_in_runs r before after id h = lookup-eq-none id r.runs (
    rw h.same_ids (ground (arith, h.once id, count-append id before (id ∷ after), text_eq_refl id)))

All-middle {ℓ} :
    {A : Type ℓ} (P : A → Type 0) (before after : List A) (x : A)
    → All P (before ++ (x ∷ after))
    → All P (before ++ after) × P x
All-middle P [] after x h = (h.1, h.0)
All-middle P (y ∷ before) after x h =
    let (rest, p) = All-middle P before after x h.1 in ((h.0, rest), p)

pub enrol-IsSound :
    (r : Registry) (before after : List Text) (id head : Text) (cfg : Config) (now : ℕ)
    → IsSound (record { registry = r; pending = before ++ (id ∷ after) })
    → IsSound
        (record { registry = enrol r (fresh_report id cfg head now); pending = before ++ after })
unfolding enrol count
enrol-IsSound r before after id head cfg now h =
    let n = r.next_id in
    let held : Run = record { report = fresh_report id cfg head now } in
    let (rest, new) =
      All-middle (Issued n) before after id
        (All-append_right (Issued n) r.order (before ++ (id ∷ after)) h.issued) in
    record {
      same_ids =
          keys-insert_new id held r.runs (fresh_in_runs r before after id h)
          ∙ ap (λ ids. ids ++ (id ∷ [])) h.same_ids;
      issued =
          All-append (Issued n) (r.order ++ (id ∷ [])) (before ++ after)
            (All-append (Issued n) r.order (id ∷ [])
              (All-append_left (Issued n) r.order (before ++ (id ∷ after)) h.issued) (new, tt))
            rest;
      once = λ k. ground (
        arith,
        h.once k,
        count-append k before (id ∷ after),
        count-append k before after,
        count-append k r.order (id ∷ []),
      );
    }

pub abandon-IsSound :
    (r : Registry) (before after : List Text) (id : Text)
    → IsSound (record { registry = r; pending = before ++ (id ∷ after) })
    → IsSound
        (record { registry = record r { cancelled = id ∷ r.cancelled }; pending = before ++ after })
unfolding count
abandon-IsSound r before after id h =
    let n = r.next_id in
    record {
      same_ids = h.same_ids;
      issued =
          All-append (Issued n) r.order (before ++ after)
            (All-append_left (Issued n) r.order (before ++ (id ∷ after)) h.issued)
            (All-middle (Issued n) before after id
              (All-append_right (Issued n) r.order (before ++ (id ∷ after)) h.issued)).0;
      once = λ k.
          ground (arith, h.once k, count-append k before (id ∷ after), count-append k before after);
    }
