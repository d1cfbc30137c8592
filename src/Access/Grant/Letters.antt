-- ===== src/Access/Grant/Letters.antt =====
-- internal/core/access/access.go: the rights that the letters of a grant give.
use Prim.Native.Nat.{bit_or}
use ranke_db.Base.{
  ℕ, ◌%◌, ◌<◌, ◌≡◌, refl, ap, ◌∙◌, inl, inr, Bool, true, not, ◌&&◌, ◌||◌, some, [], ◌∷◌, Text, any,
  ok, arith, ◌==◌, if◌then◌else◌, Option-cases,
}
use ranke_db.Base.Tables.{all_below, at_below}
use ranke_db.Access.Grant.{bit, holds, add_letters}

abbrev same : Bool → Bool → Bool
same a b = if a then b else not b

-- a set under 16 with a bit of the four: what it holds then, and that it stays under 16
abbrev keeps : ℕ → ℕ → ℕ → Bool
keeps l b n = same (holds (bit_or n l) b) (holds n b || l == b)

abbrev row : ℕ → Bool
row b =
    all_below 16 (keeps 1 b)
    && all_below 16 (keeps 2 b)
    && all_below 16 (keeps 4 b)
    && all_below 16 (keeps 8 b)

pub rows : (row 1 ≡ true) × (row 2 ≡ true) × (row 4 ≡ true) × (row 8 ≡ true)
unfolding all_below
rows = (refl, refl, refl, refl)

module _ (b letter : ℕ) where
  -- the letter is that of the bit, on every letter there is
  abbrev IsOf : Type 0
  IsOf = (r l : ℕ) → bit r ≡ some l → (l == b) ≡ (r == letter)

  abbrev Adds : Type 0
  Adds = (r l n : ℕ) → bit r ≡ some l → n < 16 → holds (bit_or n l) b ≡ (holds n b || l == b)

  pub add_letters-holds :
      IsOf
      → Adds
      → ((r l n : ℕ) → bit r ≡ some l → n < 16 → bit_or n l < 16)
      → (rs : ℕ) (s : Text) (n : ℕ) → rs < 16
      → add_letters rs s ≡ ok n
      → holds n b ≡ (holds rs b || any (λ c. c % 256 == letter) s)
  unfolding add_letters
  add_letters-holds of adds under rs [] n h e = ground (arith, e)
  add_letters-holds of adds under rs (c ∷ s) n h e = elim (Option-cases (bit (c % 256))) [
    | inl p ↦ ground arith
    | inr (l, p) ↦
        let rest =
          add_letters-holds of adds under (bit_or rs l) s n (under (c % 256) l rs p h)
            (ground arith) in
        rest
        ∙ ap (λ t. t || any (λ c. c % 256 == letter) s) (adds (c % 256) l rs p h)
        ∙ ap (λ t. (holds rs b || t) || any (λ c. c % 256 == letter) s) (of (c % 256) l p)
        ∙ ground arith
  ]

pub adds_at : (b letter : ℕ) → row b ≡ true → Adds b letter
unfolding bit
adds_at b letter t r l n h lt = ground (
  arith,
  t,
  h,
  at_below 16 (keeps 1 b) n,
  at_below 16 (keeps 2 b) n,
  at_below 16 (keeps 4 b) n,
  at_below 16 (keeps 8 b) n,
)

pub IsOf-create : IsOf 1 b'C'
unfolding bit
IsOf-create r l h = ground (arith, h)

pub IsOf-read : IsOf 2 b'R'
unfolding bit
IsOf-read r l h = ground (arith, h)

pub IsOf-update : IsOf 4 b'U'
unfolding bit
IsOf-update r l h = ground (arith, h)

pub IsOf-delete : IsOf 8 b'D'
unfolding bit
IsOf-delete r l h = ground (arith, h)
