-- ===== src/Access/Glob/Matching.antt =====
-- Which branches a grant's glob reaches, as a relation, and that `match_branch` decides it.
use ranke_db.Base.{
  ℕ, true, false, ◌≡◌, ◌≢◌, ◌↔◌, ◌⊎◌, inl, inr, refl, ap, ◌∙◌, [], ◌∷◌, ◌++◌, Text, text,
  text_eq_iff, All, has_prefix, arith, ◌==◌, ==_iff, Bool-cases,
}
use ranke_db.Access.Glob.{star, any_one, match_glob, match_branch}

abbrev pub InSegment : ℕ → Type 0
InSegment c = c ≢ b'/'

-- A pattern cuts a name into parts: each `*` takes a part of any length within a segment, each `?` one
-- character within a segment, and another character itself.
pub data Matches : Text → Text → Type 0 where
  done : Matches [] []
  part :
      {p : ℕ} {ps s : Text}
      → p ≡ star
      → (u v : Text) → s ≡ u ++ v
      → All InSegment u
      → Matches ps v
      → Matches (p ∷ ps) s
  one :
      {p c : ℕ} {ps s : Text} → p ≡ any_one → InSegment c → Matches ps s → Matches (p ∷ ps) (c ∷ s)
  literal :
      {p c : ℕ} {ps s : Text}
      → p ≢ star
      → p ≢ any_one
      → p ≡ c
      → Matches ps s
      → Matches (p ∷ ps) (c ∷ s)

extended :
    (p c : ℕ) (ps s : Text) → p ≡ star → InSegment c → Matches (p ∷ ps) s → Matches (p ∷ ps) (c ∷ s)
extended p c ps s e n (part k u v q a m) = part e (c ∷ u) v (ap (λ t. c ∷ t) q) (n, a) m
extended p c ps s e n (one k h m) = ground (arith, e, k)
extended p c ps s e n (literal k h q m) = absurd (k e)

Matches-of_match_glob : (ps s : Text) → match_glob ps s ≡ true → Matches ps s
unfolding match_glob
Matches-of_match_glob [] [] h = done
Matches-of_match_glob [] (c ∷ s) h = cc
Matches-of_match_glob (p ∷ ps) [] h =
    part (ground arith) [] [] refl tt (Matches-of_match_glob ps [] (ground arith))
Matches-of_match_glob (p ∷ ps) (c ∷ s) h = elim (Bool-cases (p == star)) [
  | inl wild ↦ elim (Bool-cases (match_glob ps (c ∷ s))) [
    | inl e ↦ part ((==_iff p star).0 wild) [] (c ∷ s) refl tt (Matches-of_match_glob ps (c ∷ s) e)
    | inr e ↦
        extended p c ps s ((==_iff p star).0 wild) (ground arith)
          (Matches-of_match_glob (p ∷ ps) s (ground arith))
  ]
  | inr tame ↦ elim (Bool-cases (p == any_one)) [
    | inl e ↦
        one ((==_iff p any_one).0 e) (ground arith) (Matches-of_match_glob ps s (ground arith))
    | inr e ↦
        literal (ground arith) (ground arith) (ground arith)
          (Matches-of_match_glob ps s (ground arith))
  ]
]

match_glob_part :
    (p : ℕ) (ps u v : Text)
    → p ≡ star
    → All InSegment u
    → match_glob ps v ≡ true
    → match_glob (p ∷ ps) (u ++ v) ≡ true
unfolding match_glob
match_glob_part p ps [] [] e a h = ground (arith, e, h)
match_glob_part p ps [] (c ∷ v) e a h = ground (arith, e, h)
match_glob_part p ps (c ∷ u) v e a h = ground (arith, e, a.0, match_glob_part p ps u v e a.1 h)

match_glob_of_Matches : (ps s : Text) → Matches ps s → match_glob ps s ≡ true
unfolding match_glob
match_glob_of_Matches [] [] m = refl
match_glob_of_Matches [] (c ∷ s) m = elim m [ ]
match_glob_of_Matches (p ∷ ps) s (part e u v q a m) =
    ap (match_glob (p ∷ ps)) q ∙ match_glob_part p ps u v e a (match_glob_of_Matches ps v m)
match_glob_of_Matches (p ∷ ps) (c ∷ s) (one e h m) = ground (arith, match_glob_of_Matches ps s m)
match_glob_of_Matches (p ∷ ps) (c ∷ s) (literal h k e m) =
    ground (arith, match_glob_of_Matches ps s m)

-- what a glob reaches: a reserved name by its own spelling alone, and another name that it matches
abbrev pub Reaches : Text → Text → Type 0
Reaches glob branch =
    ((has_prefix branch (text "$") ≡ true) × (glob ≡ branch))
    ⊎ ((has_prefix branch (text "$") ≡ false) × Matches glob branch)

-- A grant's glob reaches a branch that begins with `$` exactly when it is that name, whatever its
-- wildcards, and another branch exactly when the name is cut into the parts of the pattern: any
-- characters but `/` for a `*`, one of them for a `?`, and any other character for itself.
pub match_branch_iff :
    (glob branch : Text) → (match_branch glob branch ≡ true) ↔ Reaches glob branch
unfolding match_branch
match_branch_iff glob branch = elim (Bool-cases (has_prefix branch (text "$"))) [
  | inl e ↦ (
    λ h. inl (e, (text_eq_iff glob branch).0 (ground (arith, e, h))),
    λ d. ground (arith, e, d, text_eq_iff glob branch),
  )
  | inr e ↦ (
    λ h. inr (e, Matches-of_match_glob glob branch (ground (arith, e, h))),
    λ d. elim d [
      | inl k ↦ ground (arith, e, k.0)
      | inr k ↦ ground (arith, e, match_glob_of_Matches glob branch k.1)
    ],
  )
]
