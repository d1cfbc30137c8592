-- ===== src/Base/Decimal.antt =====
-- Decimal numerals, as `%d` prints a non-negative number.
use ranke_db.Base.Lists.{all}
use mathlib.Core.Bool.{true, ◌&&◌}
use ranke_db.Base.Tests.{leb, ◌==◌, if◌then◌else◌, Bool-cases}
use ranke_db.Base.Texts.{Text, text}
use Prim.Native.Nat.{ℕ, zero, suc, ◌+◌, ◌-◌, ◌*◌, ◌/◌, ◌%◌, ◌<◌}
use mathlib.Core.Path.{◌≡◌, refl, ap, sym, ◌∙◌}
use mathlib.Core.Logic.{inl, inr}
use mathlib.Core.List.{[], ◌∷◌}
use native.Mathlib.Omega.{arith}

-- Each round divides `n` by ten, so `n + 1` rounds are enough.
emit : ℕ → ℕ → Text → Text
emit zero n out = out
emit (suc f) n out =
    let digit = 48 + n % 10 in
    let rest = emit f (n / 10) (digit ∷ out) in if n / 10 == 0 then digit ∷ out else rest

unfoldable pub decimal : ℕ → Text
unfolding emit
decimal n = emit (suc n) n []

-- The number that digits stand for, read after the number `acc`.
unfoldable pub value_from : ℕ → Text → ℕ
value_from acc [] = acc
value_from acc (c ∷ s) = value_from (acc * 10 + (c - 48)) s

value_from-emit : (f n : ℕ) (out : Text) → n < f → value_from 0 (emit f n out) ≡ value_from n out
unfolding emit value_from
value_from-emit zero n out h = elim h [ ]
value_from-emit (suc f) n out h = elim (Bool-cases (n / 10 == 0)) [
  | inl done ↦ rw (done, emit, value_from) (ap (λ k. value_from k out) (ground arith))
  | inr more ↦
      rw (more, emit, value_from)
        (value_from-emit f (n / 10) ((48 + n % 10) ∷ out) (ground arith)
          ∙ ap (λ k. value_from k out) (omega arith))
]

-- Reading a printed number gives it back.
pub value_from-decimal : (n : ℕ) → value_from 0 (decimal n) ≡ n
unfolding decimal value_from
value_from-decimal n = value_from-emit (suc n) n [] (omega arith)

-- Different numbers are printed differently.
pub decimal-injective : (m n : ℕ) → decimal m ≡ decimal n → m ≡ n
decimal-injective m n e = sym (value_from-decimal m) ∙ ap (value_from 0) e ∙ value_from-decimal n

decimal_example : decimal 1024 ≡ text "1024"
unfolding decimal
decimal_example = refl

all_digits-emit :
    (f n : ℕ) (out : Text)
    → all (λ c. leb 48 c && leb c 57) out ≡ true
    → all (λ c. leb 48 c && leb c 57) (emit f n out) ≡ true
unfolding emit
all_digits-emit zero n out h = h
all_digits-emit (suc f) n out h =
    let digits : all (λ c. leb 48 c && leb c 57) ((48 + n % 10) ∷ out) ≡ true = ground (arith, h) in
    elim (Bool-cases (n / 10 == 0)) [
      | inl done ↦ rw (done, emit) digits
      | inr more ↦ rw (more, emit) (all_digits-emit f (n / 10) ((48 + n % 10) ∷ out) digits)
    ]

-- A printed number has decimal digits alone.
pub all_digits-decimal : (n : ℕ) → all (λ c. leb 48 c && leb c 57) (decimal n) ≡ true
unfolding decimal
all_digits-decimal n = all_digits-emit (suc n) n [] refl
