-- ===== src/Verification/Invariant.antt =====
-- What holds of the registry whatever the order in which concurrent requests enter its critical
-- sections.
use ranke_db.Base.{
  ℕ, ◌≡◌, refl, sym, ap, ◌∙◌, inl, inr, List, [], ◌∷◌, ◌++◌, Text, text_eq, All, All-append,
  All-append_left, All-append_right, arith, Bool-cases, Option-cases,
}
use mathlib.Core.Path.{subst₂}
use ranke_db.Base.Dict.{lookup, delete}
use ranke_db.Base.Keys.{keys, keys-insert_old}
use ranke_db.Verification.Values.{Handle, stopped, is_running}
use ranke_db.Verification.{Registry, new_registry, collected, collect, stop, remove, remove_id}
use ranke_db.Verification.Operations.{keys-delete, count-remove_id}
use ranke_db.Verification.Steps.{
  System, Step, reserve_step, enrol_step, abandon_step, collect_step, stop_step, remove_step, Reach,
  here, next, Issued, IsSound, new_registry-IsSound, reserved, reserve-IsSound, enrol-IsSound,
  abandon-IsSound,
}

-- The ids and the order are as they were.
record KeepsIds (r r' : Registry) : Type 0 where
  same_keys : keys r'.runs ≡ keys r.runs
  same_order : r'.order ≡ r.order
  same_next : r'.next_id ≡ r.next_id

KeepsIds-IsSound :
    {r r' : Registry} {pending : List Text}
    → KeepsIds r r'
    → IsSound (record { registry = r; pending = pending })
    → IsSound (record { registry = r'; pending = pending })
KeepsIds-IsSound {r} {r'} {pending} k h = record {
  same_ids = k.same_keys ∙ h.same_ids ∙ sym k.same_order;
  issued =
      subst₂ (λ n ids. All (Issued n) (ids ++ pending)) (sym k.same_next) (sym k.same_order)
        h.issued;
  once = λ id. rw k.same_order (h.once id);
}

collect-KeepsIds :
    (r : Registry) (id : Text) (handle : Handle) (now : ℕ) → KeepsIds r (collect r id handle now)
unfolding collect
collect-KeepsIds r id handle now = elim (Option-cases (lookup id r.runs)) [
  | inl e ↦ rw (e, collect) (record { same_keys = refl; same_order = refl; same_next = refl })
  | inr (held, e) ↦
      rw (e, collect)
        (record {
          same_keys =
              keys-insert_old id (record { report = collected held.report handle now }) held r.runs
                e;
          same_order = refl;
          same_next = refl;
        })
]

stop-KeepsIds : (r : Registry) (id : Text) → KeepsIds r (stop r id).1
unfolding stop
stop-KeepsIds r id = elim (Option-cases (lookup id r.runs)) [
  | inl e ↦ rw (e, stop) (record { same_keys = refl; same_order = refl; same_next = refl })
  | inr (held, e) ↦ elim (Bool-cases (is_running held.report.status)) [
    | inl f ↦
        rw (e, f, stop)
          (record {
            same_keys =
                keys-insert_old id (record { report = record (held.report) { status = stopped } })
                  held r.runs e;
            same_order = refl;
            same_next = refl;
          })
    | inr f ↦ rw (e, f, stop) (record { same_keys = refl; same_order = refl; same_next = refl })
  ]
]

All-remove_id :
    (n : ℕ) (ids : List Text) (id : Text) → All (Issued n) ids → All (Issued n) (remove_id ids id)
unfolding remove_id
All-remove_id n [] id h = tt
All-remove_id n (x ∷ ids) id h = elim (Bool-cases (text_eq x id)) [
  | inl e ↦ rw e (All-remove_id n ids id h.1)
  | inr e ↦ rw e (h.0, All-remove_id n ids id h.1)
]

removed : Registry → Text → Registry
removed r id = record r {
  runs = delete id r.runs;
  order = remove_id r.order id;
  cancelled = id ∷ r.cancelled;
}

removed-IsSound :
    (r : Registry) (pending : List Text) (id : Text)
    → IsSound (record { registry = r; pending = pending })
    → IsSound (record { registry = removed r id; pending = pending })
unfolding removed
removed-IsSound r pending id h = record {
  same_ids = keys-delete id r.runs ∙ ap (λ ids. remove_id ids id) h.same_ids;
  issued =
      All-append (Issued r.next_id) (remove_id r.order id) pending
        (All-remove_id r.next_id r.order id
          (All-append_left (Issued r.next_id) r.order pending h.issued))
        (All-append_right (Issued r.next_id) r.order pending h.issued);
  once = λ k. ground (arith, h.once k, count-remove_id k id r.order);
}

remove-IsSound :
    (r : Registry) (pending : List Text) (id : Text)
    → IsSound (record { registry = r; pending = pending })
    → IsSound (record { registry = (remove r id).1; pending = pending })
unfolding remove
remove-IsSound r pending id h = elim (Option-cases (lookup id r.runs)) [
  | inl e ↦ rw (e, remove) h
  | inr (held, e) ↦ rw (e, remove) (unfold removed in removed-IsSound r pending id h)
]

pub Step-IsSound : {s t : System} → Step s t → IsSound s → IsSound t
Step-IsSound (reserve_step s id r e) h =
    let (p, q) = reserved s.registry r id e in
    subst₂ (λ x y. IsSound (record { registry = y; pending = s.pending ++ (x ∷ []) })) (sym p)
      (sym q) (reserve-IsSound s h)
Step-IsSound (enrol_step r before after id head cfg now) h =
    enrol-IsSound r before after id head cfg now h
Step-IsSound (abandon_step r before after id) h = abandon-IsSound r before after id h
Step-IsSound (collect_step s id handle now) h =
    KeepsIds-IsSound (collect-KeepsIds s.registry id handle now) h
Step-IsSound (stop_step s id) h = KeepsIds-IsSound (stop-KeepsIds s.registry id) h
Step-IsSound (remove_step s id) h = remove-IsSound s.registry s.pending id h

pub Reach-IsSound_from : {s t : System} → Reach s t → IsSound s → IsSound t
Reach-IsSound_from here h = h
Reach-IsSound_from (next r st) h = Step-IsSound st (Reach-IsSound_from r h)

-- In whatever order concurrent requests enter the critical sections of a new registry: the ids in
-- start order are exactly the keys of the retained runs, every id was issued by one start, and no
-- id stands twice among the retained and the pending runs.
pub Reach-IsSound :
    (max : ℕ) {s : System}
    → Reach (record { registry = new_registry max; pending = [] }) s
    → IsSound s
Reach-IsSound max r = Reach-IsSound_from r (new_registry-IsSound max)
