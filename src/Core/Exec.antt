-- ===== src/Core/Exec.antt =====
-- Functions of the core: they read and write an exchange, and return a value or an error. What was
-- written before an error stays written.
use ranke_db.Base.{◌⊎◌, inl, inr, Result-cases, ◌≡◌, refl, Result, ok, err}
use ranke_db.Errors.{Fault}

abbrev pub Exec : Type 0 → Type 0 → Type 0
Exec S A = S → Result Fault A × S

abbrev pub resume {ℓ} :
    {A : Type ℓ} {S B : Type 0} → Result Fault A → S → (A → Exec S B) → Result Fault B × S
resume (ok a) s f = f a s
resume (err e) s f = (err e, s)

infixl 5 ◌>>=◌ ◌>>◌
abbrev pub ◌>>=◌ : {S A B : Type 0} → Exec S A → (A → Exec S B) → Exec S B
◌>>=◌ m f s = resume (m s).0 (m s).1 f

abbrev pub ◌>>◌ : {S A B : Type 0} → Exec S A → Exec S B → Exec S B
m >> n = m >>= λ _. n

abbrev pub pure : {S A : Type 0} → A → Exec S A
pure a s = (ok a, s)

abbrev pub raise : {S A : Type 0} → Fault → Exec S A
raise e s = (err e, s)

-- a result whose error is mapped
abbrev pub mapped : {A : Type 0} → (Fault → Fault) → Result Fault A → Result Fault A
mapped f (ok a) = ok a
mapped f (err e) = err (f e)

-- a read of the state that may fail, its error mapped
abbrev pub reads : {S A : Type 0} → (Fault → Fault) → (S → Result Fault A) → Exec S A
reads f g s = (mapped f (g s), s)

resume-eq-ok :
    {S A B : Type 0} (r : Result Fault A) (s : S) (f : A → Exec S B) {b : B}
    → (resume r s f).0 ≡ ok b
    → (a : A) × (r ≡ ok a) × ((f a s).0 ≡ ok b)
resume-eq-ok (ok a) s f h = (a, refl, h)
resume-eq-ok (err e) s f h = cc

-- A chain that succeeds succeeds in its first step, and its second step runs on what that leaves.
pub bind-eq-ok :
    {S A B : Type 0} (m : Exec S A) (f : A → Exec S B) (s : S) {b : B}
    → ((m >>= f) s).0 ≡ ok b
    → (a : A) × ((m s).0 ≡ ok a) × ((f a (m s).1).0 ≡ ok b)
bind-eq-ok m f s h = resume-eq-ok (m s).0 (m s).1 f h

-- how a chain ends: with the error of its first step, or as its second step does
abbrev pub Ends : {S A B : Type 0} → Exec S A → (A → Exec S B) → S → Type 0
Ends m f s =
    ((e : Fault) × ((m s).0 ≡ err e) × ((m >>= f) s ≡ (err e, (m s).1)))
    ⊎ ((a : _) × ((m s).0 ≡ ok a) × ((m >>= f) s ≡ f a (m s).1))

pub bind-Ends : {S A B : Type 0} (m : Exec S A) (f : A → Exec S B) (s : S) → Ends m f s
bind-Ends m f s = elim (Result-cases (m s).0) [
  | inl (e, h) ↦ inl (e, h, rw (h) refl)
  | inr (a, h) ↦ inr (a, h, rw (h) refl)
]

-- To split on a call that may change the world.
pub call-cases :
    {A W : Type 0} (r : Result Fault A × W)
    → ((e : Fault) × (w : W) × (r ≡ (err e, w))) ⊎ ((a : A) × (w : W) × (r ≡ (ok a, w)))
call-cases (ok a, w) = inr (a, w, refl)
call-cases (err e, w) = inl (e, w, refl)
