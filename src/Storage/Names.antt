-- ===== src/Storage/Names.antt =====
-- The names of `distinct`.
use ranke_db.Base.{
  ℕ, ◌+◌, ◌≤◌, ◌≡◌, ◌≢◌, refl, ap, sym, ◌∙◌, inl, inr, true, ◌&&◌, List, [], ◌∷◌, ◌++◌, all,
  all-reverse, &&-split, Text, text, text_eq, text_eq_iff, leb, ltb, ◌==◌, if◌then◌else◌, arith,
  Bool-cases,
}
use mathlib.Core.List.{reverse, reverse-append, reverse-cons, reverse-reverse, append_assoc}
use ranke_db.Base.Decimal.{decimal, decimal-injective, all_digits-decimal}
use ranke_db.Base.Keys.{count}
use ranke_db.Storage.{Layer, names, suffix_from, distinct}

-- a name with the position that `distinct` gives it
abbrev pub suffixed : Text → ℕ → Text
suffixed name i = name ++ (text "-" ++ decimal i)

-- what stands before the first dash
until_dash : Text → Text
until_dash [] = []
until_dash (c ∷ s) = let rest = until_dash s in if c == b'-' then [] else c ∷ rest

until_dash-append :
    (s t : Text) → all (λ c. leb 48 c && leb c 57) s ≡ true → until_dash (s ++ (b'-' ∷ t)) ≡ s
unfolding until_dash
until_dash-append [] t h = refl
until_dash-append (c ∷ s) t h =
    let both = &&-split (leb 48 c && leb c 57) (all (λ c. leb 48 c && leb c 57) s) h in
    ground (arith, both.0, until_dash-append s t both.1)

all_digits-reverse :
    (s : Text)
    → all (λ c. leb 48 c && leb c 57) s ≡ true
    → all (λ c. leb 48 c && leb c 57) (reverse s) ≡ true
all_digits-reverse s h = all-reverse (λ c. leb 48 c && leb c 57) s ∙ h

reverse-suffixed :
    (name : Text) (i : ℕ) → reverse (suffixed name i) ≡ reverse (decimal i) ++ (b'-' ∷ reverse name)
reverse-suffixed name i =
    reverse-append name (b'-' ∷ decimal i)
    ∙ ap (λ s. s ++ reverse name) (reverse-cons b'-' (decimal i))
    ∙ append_assoc (reverse (decimal i)) (b'-' ∷ []) (reverse name)

last_number : (name : Text) (i : ℕ) → until_dash (reverse (suffixed name i)) ≡ reverse (decimal i)
last_number name i =
    ap until_dash (reverse-suffixed name i)
    ∙ until_dash-append (reverse (decimal i)) (reverse name)
        (all_digits-reverse (decimal i) (all_digits-decimal i))

-- The position can be read off a suffixed name.
suffixed-position : (m n : Text) (i j : ℕ) → suffixed m i ≡ suffixed n j → i ≡ j
suffixed-position m n i j h =
    let same : reverse (decimal i) ≡ reverse (decimal j) =
      sym (last_number m i) ∙ ap (λ s. until_dash (reverse s)) h ∙ last_number n j in
    decimal-injective i j
      (sym (reverse-reverse (decimal i)) ∙ ap reverse same ∙ reverse-reverse (decimal j))

module _ (seen : List Text) where
  -- no later suffixed name is `k`
  abbrev IsFresh : Text → ℕ → Type 0
  IsFresh k i = (m : Text) (j : ℕ) → i ≤ j → 2 ≤ count m seen → suffixed m j ≢ k

  none_later :
      (k : Text) (i : ℕ) (ls : List Layer)
      → count k (names ls) ≡ 0
      → IsFresh k i
      → count k (names (suffix_from seen i ls)) ≡ 0
  unfolding suffix_from count
  none_later k i [] z f = refl
  none_later k i (l ∷ ls) z f =
      let later = none_later k (i + 1) ls (ground (arith, z)) (λ m j h. f m j (omega (arith, h))) in
      elim (Bool-cases (ltb 1 (count l.name seen))) [
        | inl e ↦
            let fresh : suffixed l.name i ≢ k = f l.name i (omega arith) (ground (arith, e)) in
            ground (arith, e, fresh, text_eq_iff (suffixed l.name i) k, later)
        | inr e ↦ ground (arith, e, z, later)
      ]

  once_from :
      (k : Text) (i : ℕ) (ls : List Layer)
      → ((x : Text) → count x (names ls) ≤ count x seen)
      → ((m : Text) (j : ℕ) → 2 ≤ count m seen → count (suffixed m j) seen ≡ 0)
      → count k (names (suffix_from seen i ls)) ≤ 1
  unfolding suffix_from count
  once_from k i [] sub free = omega arith
  once_from k i (l ∷ ls) sub free =
      let later = once_from k (i + 1) ls (λ x. ground (arith, sub x)) free in
      elim (Bool-cases (ltb 1 (count l.name seen))) [
        | inl e ↦ elim (Bool-cases (text_eq (suffixed l.name i) k)) [
          | inl g ↦
              let named = (text_eq_iff (suffixed l.name i) k).0 g in
              let unseen : count k seen ≡ 0 =
                ap (λ s. count s seen) (sym named) ∙ free l.name i (ground (arith, e)) in
              let alone = none_later k (i + 1) ls (ground (arith, sub k, unseen)) (λ m j h two q.
                absurd (omega (arith, h, suffixed-position m l.name j i (q ∙ sym named)))) in
              ground (arith, e, g, alone)
          | inr g ↦ ground (arith, e, g, later)
        ]
        | inr e ↦ elim (Bool-cases (text_eq l.name k)) [
          | inl g ↦
              let named = (text_eq_iff l.name k).0 g in
              let few : count k seen ≤ 1 = ground (arith, e, named) in
              let seen_once : 1 ≤ count k seen = ground (arith, sub k, g) in
              let alone = none_later k (i + 1) ls (ground (arith, sub k, g, few)) (λ m j h two q.
                absurd (omega (arith, seen_once, ap (λ s. count s seen) (sym q) ∙ free m j two))) in
              ground (arith, e, g, alone)
          | inr g ↦ ground (arith, e, g, later)
        ]
      ]

-- Every name that `distinct` gives identifies one layer, provided that no configured name is already
-- a repeated name with a dash and a number after it.
pub count-distinct :
    (ls : List Layer) (k : Text)
    → ((m : Text) (j : ℕ) → 2 ≤ count m (names ls) → count (suffixed m j) (names ls) ≡ 0)
    → count k (names (distinct ls)) ≤ 1
unfolding distinct
count-distinct ls k free = once_from (names ls) k 0 ls (λ x. omega arith) free
