-- ===== src/Verification/Operations.antt =====
-- How the operations change the number of running runs and the ids.
use ranke_db.Base.{
  ℕ, ◌+◌, ◌≤◌, ◌≡◌, refl, Bool, true, false, none, some, List, [], ◌∷◌, Text, text_eq, text_eq_iff,
  arith, if◌then◌else◌,
}
use ranke_db.Base.Dict.{Dict, lookup, insert, delete}
use ranke_db.Base.Keys.{count, keys}
use ranke_db.Verification.Values.{is_running}
use ranke_db.Verification.{Run, active_in, remove_id}

abbrev pub one_if : Bool → ℕ
one_if true = 1
one_if false = 0

-- whether a run is running, as a number
abbrev pub weight : Run → ℕ
weight held = one_if (is_running held.report.status)

pub active_in-insert_new :
    (id : Text) (held : Run) (runs : Dict Run)
    → lookup id runs ≡ none
    → active_in (insert id held runs) ≡ active_in runs + weight held
unfolding active_in lookup insert
active_in-insert_new id held [] h = ground arith
active_in-insert_new id held ((j, x) ∷ runs) h = ground (arith, active_in-insert_new id held runs)

pub active_in-insert_old :
    (id : Text) (held old : Run) (runs : Dict Run)
    → lookup id runs ≡ some old
    → active_in (insert id held runs) + weight old ≡ active_in runs + weight held
unfolding active_in lookup insert
active_in-insert_old id held old [] h = cc
active_in-insert_old id held old ((j, x) ∷ runs) h =
    ground (arith, active_in-insert_old id held old runs)

pub active_in-insert-le :
    (id : Text) (held : Run) (runs : Dict Run)
    → active_in (insert id held runs) ≤ active_in runs + 1
unfolding active_in insert
active_in-insert-le id held [] = ground arith
active_in-insert-le id held ((j, x) ∷ runs) = ground (arith, active_in-insert-le id held runs)

pub active_in-delete-le :
    (id : Text) (runs : Dict Run) → active_in (delete id runs) ≤ active_in runs
unfolding active_in delete
active_in-delete-le id [] = omega arith
active_in-delete-le id ((j, x) ∷ runs) = ground (arith, active_in-delete-le id runs)

pub keys-delete : (id : Text) (runs : Dict Run) → keys (delete id runs) ≡ remove_id (keys runs) id
unfolding keys delete remove_id
keys-delete id [] = refl
keys-delete id ((j, x) ∷ runs) = ground (arith, keys-delete id runs)

pub count-remove_id :
    (k id : Text) (ids : List Text)
    → count k (remove_id ids id) ≡ (if text_eq id k then 0 else count k ids)
unfolding count remove_id
count-remove_id k id [] = ground arith
count-remove_id k id (x ∷ ids) =
    ground (arith, text_eq_iff x k, text_eq_iff x id, text_eq_iff id k, count-remove_id k id ids)
