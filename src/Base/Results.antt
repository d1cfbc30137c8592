-- ===== src/Base/Results.antt =====
-- A Go `(value, error)` pair of which one part counts.
use mathlib.Core.Path.{◌≡◌, refl}
use mathlib.Core.Logic.{◌⊎◌, inl, inr}
use mathlib.Core.Bool.{Bool, true, false}

pub data Result {ℓ κ} (E : Type ℓ) (A : Type κ) : Type (ℓ ⊔ κ) where
  ok : A → Result E A
  err : E → Result E A

infixl 5 ◌>>=◌
-- `if err != nil { return err }`
abbrev pub ◌>>=◌ {ℓ κ μ} :
    {E : Type ℓ} {A : Type κ} {B : Type μ} → Result E A → (A → Result E B) → Result E B
ok a >>= f = f a
err e >>= f = err e

abbrev pub succeeds {ℓ κ} : {E : Type ℓ} {A : Type κ} → Result E A → Bool
succeeds (ok _) = true
succeeds (err _) = false

-- A chain that succeeds succeeds in its first step.
pub bind-eq-ok {ℓ κ μ} :
    {E : Type ℓ} {A : Type κ} {B : Type μ} (m : Result E A) (f : A → Result E B) {b : B}
    → (m >>= f) ≡ ok b
    → (a : A) × (m ≡ ok a) × (f a ≡ ok b)
bind-eq-ok (ok a) f h = (a, refl, h)
bind-eq-ok (err e) f h = cc

-- To split on a computed result and keep the equation.
pub Result-cases {ℓ κ} :
    {E : Type ℓ} {A : Type κ} (r : Result E A) → ((e : E) × (r ≡ err e)) ⊎ ((a : A) × (r ≡ ok a))
Result-cases (ok a) = inr (a, refl)
Result-cases (err e) = inl (e, refl)

-- A call has one result.
pub ok_unique {ℓ κ} :
    {E : Type ℓ} {A : Type κ} (r : Result E A) (a b : A) → r ≡ ok a → r ≡ ok b → a ≡ b
ok_unique r a b g h = cc

pub err-ne-ok {ℓ κ μ} :
    {E : Type ℓ} {A : Type κ} {B : Type μ} (r : Result E A) (e : E) (a : A)
    → r ≡ err e
    → r ≡ ok a
    → B
err-ne-ok r e a g h = cc
