-- ===== src/Base/Fields.antt =====
-- `strings.Fields`: what its fields hold, and the fields of a text of two words.
use ranke_db.Base.Tests.{Bool-cases}
use ranke_db.Base.Lists.{All, all}
use ranke_db.Base.Texts.{Text, is_space, field_runs, fields, glue, drop_empty}
use Prim.Native.Nat.{ℕ}
use mathlib.Core.Path.{◌≡◌, refl, ap}
use mathlib.Core.Logic.{◌≢◌, inl, inr}
use mathlib.Core.Bool.{Bool, true, false, not}
use mathlib.Core.List.{List, [], ◌∷◌, ◌++◌}
use native.Mathlib.Omega.{arith}

-- no character is a space
abbrev pub is_solid : Text → Bool
is_solid = all (λ c. not (is_space c))

pub record IsField (f : Text) : Type 0 where
  pub nonempty : f ≢ []
  pub solid : is_solid f ≡ true

abbrev Solids : List Text → Type 0
Solids = All (λ f. is_solid f ≡ true)

glue-Solids : (c : ℕ) (fs : List Text) → is_space c ≡ false → Solids fs → Solids (glue c fs)
glue-Solids c [] e h = (ground arith, tt)
glue-Solids c (f ∷ fs) e h = (ground (arith, h.0), h.1)

field_runs-Solids : (s : Text) → Solids (field_runs s)
unfolding field_runs
field_runs-Solids [] = (refl, tt)
field_runs-Solids (c ∷ s) = elim (Bool-cases (is_space c)) [
  | inl e ↦ rw e (refl, field_runs-Solids s)
  | inr e ↦ rw e (glue-Solids c (field_runs s) e (field_runs-Solids s))
]

drop_empty-IsField : (fs : List Text) → Solids fs → All IsField (drop_empty fs)
drop_empty-IsField [] h = tt
drop_empty-IsField ([] ∷ fs) h = drop_empty-IsField fs h.1
drop_empty-IsField ((c ∷ f) ∷ fs) h =
    (record { nonempty = λ e. cc; solid = h.0 }, drop_empty-IsField fs h.1)

-- Every field is a text that is not empty and holds no space.
pub fields-IsField : (s : Text) → All IsField (fields s)
unfolding fields
fields-IsField s = drop_empty-IsField (field_runs s) (field_runs-Solids s)

field_runs_of_solid : (s : Text) → is_solid s ≡ true → field_runs s ≡ s ∷ []
unfolding field_runs
field_runs_of_solid [] h = refl
field_runs_of_solid (c ∷ s) h = ground (arith, field_runs_of_solid s)

field_runs_of_two :
    (a b : Text) → is_solid a ≡ true → is_solid b ≡ true → field_runs (a ++ (b' ' ∷ b)) ≡ a ∷ b ∷ []
unfolding field_runs is_space
field_runs_of_two [] b h k = ap (λ r. [] ∷ r) (field_runs_of_solid b k)
field_runs_of_two (c ∷ a) b h k = ground (arith, field_runs_of_two a b)

-- Two words with a space between them are the two fields of that text.
pub fields_of_two : (a b : Text) → IsField a → IsField b → fields (a ++ (b' ' ∷ b)) ≡ a ∷ b ∷ []
unfolding fields
fields_of_two [] b h k = absurd (h.nonempty refl)
fields_of_two (c ∷ a) [] h k = absurd (k.nonempty refl)
fields_of_two (c ∷ a) (d ∷ b) h k =
    ap drop_empty (field_runs_of_two (c ∷ a) (d ∷ b) h.solid k.solid)
