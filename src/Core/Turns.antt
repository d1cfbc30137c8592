-- ===== src/Core/Turns.antt =====
-- internal/core: a server that handles one request after another, with the ends of its verification
-- walks between them.
use ranke_db.Base.{◌≡◌, refl, sym, ◌++◌, ap, ◌∙◌, ◌≤◌, ℕ, ◌==◌, if◌then◌else◌, List, [], ◌∷◌, Text}
use mathlib.Core.Path.{subst}
use ranke_db.Verification.{Registry, new_registry, active}
use ranke_db.Verification.Values.{Handle}
use ranke_db.Verification.Limit.{Op, collect_op, apply, apply_all, active-le-max}
use ranke_db.Core.Library.{Ranke}
use ranke_db.Core.Values.{Request, Server, Exchange}
use ranke_db.Core.Execute.{handle}
use ranke_db.Core.Footprint.{reported, contributed, ran, advanced}
use ranke_db.Core.Handling.{handle-Effect}

-- the registry after the operations of the turns
abbrev RunsAs : Registry → Registry → Type 0
RunsAs r r' = (ops : List Op) × (r' ≡ apply_all r ops)

apply_all-append :
    (ops rest : List Op) (r : Registry)
    → apply_all r (ops ++ rest) ≡ apply_all (apply_all r ops) rest
unfolding apply_all
apply_all-append [] rest r = refl
apply_all-append (op ∷ ops) rest r = apply_all-append ops rest (apply r op)

module _ (R : Ranke) where
  -- a request handled at a time, or a walk that ends
  pub data Turn : Type 0 where
    request_turn : Request R → ℕ → Turn
    walk_turn : Text → Handle → ℕ → Turn

module _ {R : Ranke} (c : Server) where
  unfoldable pub turn : Exchange R → Turn R → Exchange R
  turn x (request_turn req now) = (handle c req (record x { now = now; report = [] })).1
  turn x (walk_turn id walk now) = record x { runs = apply x.runs (collect_op id walk now) }

  unfoldable pub turns : Exchange R → List (Turn R) → Exchange R
  turns x [] = x
  turns x (t ∷ ts) = turns (turn x t) ts

  handle-RunsAs : (req : Request R) (x : Exchange R) → RunsAs x.runs (handle c req x).1.runs
  unfolding apply_all
  handle-RunsAs req x = elim (handle-Effect c req x) [
    | reported h ↦ ([], ap (λ (t : Exchange R). t.runs) h)
    | contributed _ t i l _ h ↦ ([], ap (λ (t : Exchange R). t.runs) h)
    | ran _ o _ h ↦ (o ∷ [], ap (λ (t : Exchange R). t.runs) h)
    | advanced _ _ h ↦ ([], ap (λ (t : Exchange R). t.runs) h)
  ]

  turns-RunsAs : (ts : List (Turn R)) (x : Exchange R) → RunsAs x.runs (turns x ts).runs
  unfolding turns turn apply_all
  turns-RunsAs [] x = ([], refl)
  turns-RunsAs (request_turn req now ∷ ts) x =
      let (ops, h) = handle-RunsAs req (record x { now = now; report = [] }) in
      let (rest, k) = turns-RunsAs ts (turn x (request_turn req now)) in
      (ops ++ rest, k ∙ ap (λ r. apply_all r rest) h ∙ sym (apply_all-append ops rest x.runs))
  turns-RunsAs (walk_turn id walk now ∷ ts) x =
      let (rest, k) = turns-RunsAs ts (turn x (walk_turn id walk now)) in
      (collect_op id walk now ∷ rest, k)

  -- However a new server is used, request after request and walk after walk, no more verification
  -- runs are running than the bound it was made with, which is 1 for a bound of 0.
  pub turns-active-le :
      (max : ℕ) (ts : List (Turn R)) (x : Exchange R)
      → x.runs ≡ new_registry max
      → active (turns x ts).runs ≤ (if max == 0 then 1 else max)
  turns-active-le max ts x h =
      let (ops, k) = turns-RunsAs ts x in
      subst (λ r. active r ≤ (if max == 0 then 1 else max)) (sym (k ∙ ap (λ r. apply_all r ops) h))
        (active-le-max max ops)
