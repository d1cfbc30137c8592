-- ===== src/Access/Grant/Legal.antt =====
-- What a grant holds that `ParseGrant` returned.
use Prim.Native.Nat.{bit_or}
use mathlib.Core.Path.{subst}
use ranke_db.Base.{
  ℕ, ◌%◌, ◌<◌, ◌≡◌, ◌≢◌, ◌⊎◌, ◌↔◌, refl, sym, inl, inr, Bool, true, false, ◌&&◌, some, List, [],
  ◌∷◌, Text, text, text_eq, text_eq_iff, has_prefix, fields, All, ok, any, ◌==◌, bind-eq-ok, arith,
  ltb, Option-cases,
}
use ranke_db.Base.Fields.{IsField, fields-IsField}
use ranke_db.Base.Tables.{all_below, at_below}
use ranke_db.Access.Grant.Letters.{
  rows, add_letters-holds, adds_at, IsOf-create, IsOf-read, IsOf-update, IsOf-delete,
}
use ranke_db.Access.Grant.{
  holds, Grant, universe, archive, sequencer, branches, bit, add_letters, is_reserved, branch_glob,
  check_glob, parse_fields, parse_grant,
}

-- some right and no bit beyond the four
abbrev pub IsRights : ℕ → Type 0
IsRights rs = (0 < rs) × (rs < 16)

is_rights : ℕ → Bool
is_rights n = ltb 0 n && ltb n 16

bit-or_table :
    (all_below 16 (λ n. is_rights (bit_or n 1))
      && all_below 16 (λ n. is_rights (bit_or n 2))
      && all_below 16 (λ n. is_rights (bit_or n 4))
      && all_below 16 (λ n. is_rights (bit_or n 8)))
    ≡ true
unfolding all_below is_rights
bit-or_table = refl

IsRights-of_test : (n : ℕ) → is_rights n ≡ true → IsRights n
unfolding is_rights
IsRights-of_test n h = (ground arith, ground arith)

is_rights-or : (r b rs : ℕ) → bit r ≡ some b → rs < 16 → is_rights (bit_or rs b) ≡ true
unfolding bit
is_rights-or r b rs h lt = ground (
  arith,
  bit-or_table,
  at_below 16 (λ n. is_rights (bit_or n 1)) rs,
  at_below 16 (λ n. is_rights (bit_or n 2)) rs,
  at_below 16 (λ n. is_rights (bit_or n 4)) rs,
  at_below 16 (λ n. is_rights (bit_or n 8)) rs,
)

-- Once a set is not empty it stays a set of the four rights.
add_letters_more : (rs : ℕ) (s : Text) (n : ℕ) → IsRights rs → add_letters rs s ≡ ok n → IsRights n
unfolding add_letters
add_letters_more rs [] n h e = ground arith
add_letters_more rs (c ∷ s) n h e = elim (Option-cases (bit (c % 256))) [
  | inl p ↦ ground arith
  | inr (b, p) ↦
      add_letters_more (bit_or rs b) s n
        (IsRights-of_test (bit_or rs b) (is_rights-or (c % 256) b rs p h.1)) (ground arith)
]

add_letters-IsRights : (s : Text) (n : ℕ) → s ≢ [] → add_letters 0 s ≡ ok n → IsRights n
unfolding add_letters
add_letters-IsRights [] n h e = absurd (h refl)
add_letters-IsRights (c ∷ s) n h e = elim (Option-cases (bit (c % 256))) [
  | inl p ↦ ground arith
  | inr (b, p) ↦
      add_letters_more (bit_or 0 b) s n
        (IsRights-of_test (bit_or 0 b) (is_rights-or (c % 256) b 0 p (omega arith))) (ground arith)
]

-- The globs that a set of rights may stand beside: `$universe` only with R, the other reserved
-- names, or a pattern over the characters of branch names that begins with no `_`.
abbrev pub LegalGlob : ℕ → Text → Type 0
LegalGlob rs glob =
    ((glob ≡ universe) × (rs ≡ 2))
    ⊎ (glob ≡ archive)
    ⊎ (glob ≡ sequencer)
    ⊎ (glob ≡ branches)
    ⊎ ((branch_glob glob ≡ true) × (has_prefix glob (text "_") ≡ false))

no_dollar : (glob : Text) → branch_glob glob ≡ true → has_prefix glob (text "$") ≡ false
unfolding branch_glob has_prefix
no_dollar [] h = cc
no_dollar (c ∷ s) h = ground arith

no_reserved : (glob : Text) → has_prefix glob (text "$") ≡ false → is_reserved glob ≡ false
unfolding has_prefix is_reserved text_eq
no_reserved [] h = refl
no_reserved (c ∷ s) h = ground arith

check_glob_sound :
    (rs : ℕ) (glob : Text) (g : Grant)
    → check_glob rs glob ≡ ok g
    → (g ≡ record { rights = rs; glob = glob }) × LegalGlob rs glob
unfolding check_glob is_reserved
check_glob_sound rs glob g h = (
  ground arith,
  ground (
    arith,
    text_eq_iff glob universe,
    text_eq_iff glob archive,
    text_eq_iff glob sequencer,
    text_eq_iff glob branches,
  ),
)

check_glob_complete :
    (rs : ℕ) (glob : Text)
    → LegalGlob rs glob
    → check_glob rs glob ≡ ok (record { rights = rs; glob = glob })
unfolding check_glob
check_glob_complete rs glob (inl (e, r)) = rw (e, r) (unfold is_reserved has_prefix text_eq in refl)
check_glob_complete rs glob (inr (inl e)) = rw e (unfold is_reserved has_prefix text_eq in refl)
check_glob_complete rs glob (inr (inr (inl e))) =
    rw e (unfold is_reserved has_prefix text_eq in refl)
check_glob_complete rs glob (inr (inr (inr (inl e)))) =
    rw e (unfold is_reserved has_prefix text_eq in refl)
check_glob_complete rs glob (inr (inr (inr (inr (p, q))))) = ground (arith, no_dollar glob p)

-- The tests on the glob accept exactly the legal globs, and change neither part.
pub check_glob_iff :
    (rs : ℕ) (glob : Text)
    → (check_glob rs glob ≡ ok (record { rights = rs; glob = glob })) ↔ LegalGlob rs glob
check_glob_iff rs glob = (
  λ h. (check_glob_sound rs glob (record { rights = rs; glob = glob }) h).1,
  check_glob_complete rs glob,
)

-- the low byte of a letter is a right's
abbrev pub IsLetter : ℕ → Type 0
IsLetter c = (c % 256 ≡ b'C') ⊎ (c % 256 ≡ b'R') ⊎ (c % 256 ≡ b'U') ⊎ (c % 256 ≡ b'D')

bit-IsLetter : (c b : ℕ) → bit (c % 256) ≡ some b → IsLetter c
unfolding bit
bit-IsLetter c b h = ground (arith, h)

add_letters-IsLetter : (rs : ℕ) (s : Text) (n : ℕ) → add_letters rs s ≡ ok n → All IsLetter s
unfolding add_letters
add_letters-IsLetter rs [] n e = tt
add_letters-IsLetter rs (c ∷ s) n e = elim (Option-cases (bit (c % 256))) [
  | inl p ↦ ground arith
  | inr (b, p) ↦ (bit-IsLetter c b p, add_letters-IsLetter (bit_or rs b) s n (ground arith))
]

under_sixteen : (r l n : ℕ) → bit r ≡ some l → n < 16 → bit_or n l < 16
under_sixteen r l n h lt = (IsRights-of_test (bit_or n l) (is_rights-or r l n h lt)).1

-- A set holds exactly the rights whose letters occur, by their low bytes.
pub record HasLetters (letters : Text) (rs : ℕ) : Type 0 where
  pub create : holds rs 1 ≡ any (λ c. c % 256 == b'C') letters
  pub read : holds rs 2 ≡ any (λ c. c % 256 == b'R') letters
  pub update : holds rs 4 ≡ any (λ c. c % 256 == b'U') letters
  pub delete : holds rs 8 ≡ any (λ c. c % 256 == b'D') letters

add_letters-HasLetters : (s : Text) (n : ℕ) → add_letters 0 s ≡ ok n → HasLetters s n
add_letters-HasLetters s n e =
    let (c, r, u, d) = rows in
    record {
      create =
          add_letters-holds 1 b'C' IsOf-create (adds_at 1 b'C' c) under_sixteen 0 s n (omega arith)
            e;
      read =
          add_letters-holds 2 b'R' IsOf-read (adds_at 2 b'R' r) under_sixteen 0 s n (omega arith) e;
      update =
          add_letters-holds 4 b'U' IsOf-update (adds_at 4 b'U' u) under_sixteen 0 s n (omega arith)
            e;
      delete =
          add_letters-holds 8 b'D' IsOf-delete (adds_at 8 b'D' d) under_sixteen 0 s n (omega arith)
            e;
    }

-- What a parsed grant is: its letters and its glob were the two fields of the spec.
pub record IsParsed (spec : Text) (g : Grant) : Type 0 where
  pub letters : Text
  pub two_fields : fields spec ≡ letters ∷ g.glob ∷ []
  pub read : HasLetters letters g.rights
  pub known : All IsLetter letters
  pub rights : IsRights g.rights
  pub word : IsField g.glob
  pub legal : LegalGlob g.rights g.glob

parse_fields-IsParsed :
    (spec : Text) (fs : List Text) (g : Grant)
    → fields spec ≡ fs
    → All IsField fs
    → parse_fields fs ≡ ok g
    → IsParsed spec g
parse_fields-IsParsed spec [] g e w h = cc
parse_fields-IsParsed spec (a ∷ []) g e w h = cc
parse_fields-IsParsed spec (a ∷ b ∷ c ∷ r) g e w h = cc
parse_fields-IsParsed spec (a ∷ b ∷ []) g e w h =
    let (rs, p, q) = bind-eq-ok (add_letters 0 a) (λ rs. check_glob rs b) h in
    let (same, legal) = check_glob_sound rs b g q in
    subst (IsParsed spec) (sym same) (record {
      letters = a;
      two_fields = e;
      read = add_letters-HasLetters a rs p;
      known = add_letters-IsLetter 0 a rs p;
      rights = add_letters-IsRights a rs w.0.nonempty p;
      word = w.1.0;
      legal = legal;
    })

-- A spec that parses has two fields. Every letter of the first has the low byte of `C`, `R`, `U` or
-- `D`, and the grant holds each of these rights exactly where its letter occurs, at least one, and no
-- other bit. The glob is the second field, and is `$universe` with no right but R, another reserved
-- name, or a pattern over the characters of branch names that begins with no `_`.
pub parse_grant-IsParsed : (spec : Text) (g : Grant) → parse_grant spec ≡ ok g → IsParsed spec g
unfolding parse_grant
parse_grant-IsParsed spec g h =
    parse_fields-IsParsed spec (fields spec) g refl (fields-IsField spec) h
