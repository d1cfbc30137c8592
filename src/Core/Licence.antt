-- ===== src/Core/Licence.antt =====
-- internal/core/execute.go, `contribute`: what a contribution opens under, and when the library is
-- called at all.
use ranke_db.Base.{
  ℕ, ◌≡◌, refl, ◌∙◌, ap, inl, inr, ◌⊎◌, Bool, true, false, List, [], ◌∷◌, ◌++◌, map, keep, all, All,
  &&-split, Text, ok, err, arith, Bool-cases, Result-cases, ok_unique, if◌then◌else◌,
}
use mathlib.Core.Path.{subst}
use ranke_db.Errors.{fault, forbidden, map_lib_error}
use ranke_db.Access.Grant.{universe, branches, read_right, contribute_right}
use ranke_db.Access.Checker.{Principal}
use ranke_db.Access.Checker
use ranke_db.Core.Library.{Ranke, Constraints}
use ranke_db.Core.Values.{authorized, Server, Exchange}
use ranke_db.Core.Exec.{bind-eq-ok, reads}
use ranke_db.Core.Pipeline.{allow}
use ranke_db.Core.Contribute.{
  lifted_types, allow_all, readable_scopes, creatable_of, creatable_branches, effective,
}
use ranke_db.Core.Frame.{allow_all-Reports, readable_scopes-Reports, creatable_branches-Reports}

-- the scopes that a principal may carry a right on
abbrev pub IsAllowed : Server → Principal → ℕ → Text → Type 0
IsAllowed c p right scope = Checker.allow c.access p right scope ≡ true

-- What the grants allow a contribution: the declared branches, the scopes that it may refer to, and
-- reserved types and new branches for a principal with C on $branches.
pub record IsOffer (c : Server) (p : Principal) (asked offered : Constraints) : Type 0 where
  pub same_branches : offered.branches ≡ asked.branches
  pub declared : All (IsAllowed c p contribute_right) offered.branches
  pub readable : All (IsAllowed c p read_right) offered.referencable
  pub lifts : (offered.lifted ≡ []) ⊎ IsAllowed c p contribute_right branches
  pub creates : (offered.creatable ≡ []) ⊎ IsAllowed c p contribute_right branches

all-All : (f : Text → Bool) (xs : List Text) → all f xs ≡ true → All (λ x. f x ≡ true) xs
all-All f [] h = tt
all-All f (x ∷ xs) h = let (p, q) = &&-split (f x) (all f xs) h in (p, all-All f xs q)

kept :
    (f : Text → Bool) (x : Text) (xs : List Text) (b : Bool)
    → f x ≡ b
    → (if b then x ∷ keep f xs else keep f xs) ≡ keep f (x ∷ xs)
kept f x xs b h = ground arith

keep-All : (f : Text → Bool) (xs : List Text) → All (λ x. f x ≡ true) (keep f xs)
keep-All f [] = tt
keep-All f (x ∷ xs) = elim (Bool-cases (f x)) [
  | inl e ↦ subst (All (λ x. f x ≡ true)) (kept f x xs true e) (e, keep-All f xs)
  | inr e ↦ subst (All (λ x. f x ≡ true)) (kept f x xs false e) (keep-All f xs)
]

lifted_types-cases :
    (R : Ranke) (c : Server) (p : Principal)
    → (lifted_types R c p ≡ []) ⊎ IsAllowed c p contribute_right branches
unfolding lifted_types
lifted_types-cases R c p = elim (Bool-cases (Checker.allow c.access p contribute_right branches)) [
  | inl e ↦ inr e
  | inr e ↦ inl (rw (e) refl)
]

module _ {R : Ranke} (c : Server) where
  pub allow_all_lem :
      (bs : List Text) (x : Exchange R)
      → (allow_all c bs x).0 ≡ (
          if all (Checker.allow c.access x.principal contribute_right) bs
          then ok tt
          else err (fault forbidden))
  unfolding allow_all allow
  allow_all_lem [] x = refl
  allow_all_lem (b ∷ bs) x = ground (
    arith,
    allow_all_lem bs (record x { report = x.report ++ (authorized contribute_right b ∷ []) }),
  )

  readable_scopes-All :
      (a : R.Archive) (x : Exchange R) (scopes : List Text)
      → (readable_scopes c a x).0 ≡ ok scopes
      → All (IsAllowed c x.principal read_right) scopes
  unfolding readable_scopes
  readable_scopes-All a x scopes h =
      elim (Bool-cases (Checker.allow c.access x.principal read_right universe)) [
        | inl e ↦
            subst (All (IsAllowed c x.principal read_right))
              (ok_unique (readable_scopes c a x).0 (universe ∷ []) scopes (ground arith) h) (e, tt)
        | inr e ↦ elim (Result-cases (R.get_branches x.world a)) [
          | inl (f, g) ↦ ground arith
          | inr (bs, g) ↦
              subst (All (IsAllowed c x.principal read_right))
                (ok_unique (readable_scopes c a x).0
                  (keep (Checker.allow c.access x.principal read_right) (map R.branch_name bs))
                  scopes (ground arith) h)
                (keep-All (Checker.allow c.access x.principal read_right) (map R.branch_name bs))
        ]
      ]

  creatable_of-cases :
      (missing : List Text) (x : Exchange R) (found : List Text)
      → (creatable_of c missing x).0 ≡ ok found
      → (found ≡ []) ⊎ IsAllowed c x.principal contribute_right branches
  unfolding creatable_of
  creatable_of-cases missing x found h =
      elim (Bool-cases (Checker.allow c.access x.principal contribute_right branches)) [
        | inl e ↦ inr e
        | inr e ↦ inl (ok_unique (creatable_of c missing x).0 found [] h (ground arith))
      ]

  allow_all-All :
      (bs : List Text) (x : Exchange R) (t : Unit)
      → (allow_all c bs x).0 ≡ ok t
      → All (IsAllowed c x.principal contribute_right) bs
  allow_all-All bs x t h =
      elim (Bool-cases (all (Checker.allow c.access x.principal contribute_right) bs)) [
        | inl e ↦ all-All (Checker.allow c.access x.principal contribute_right) bs e
        | inr e ↦ ground (arith, allow_all_lem bs x)
      ]

  creatable_branches-cases :
      (a : R.Archive) (bs found : List Text) (x : Exchange R)
      → (creatable_branches c a bs x).0 ≡ ok found
      → (found ≡ []) ⊎ IsAllowed c x.principal contribute_right branches
  unfolding creatable_branches
  creatable_branches-cases a bs found x h =
      let (missing, e, h1) =
        bind-eq-ok (reads {S = Exchange R} map_lib_error (λ x. R.missing_branches x.world a bs)) _ x
          h in
      creatable_of-cases missing x found h1

  -- A contribution opens under what its body asked for, narrowed to an offer that never exceeds the
  -- grants of its principal: every declared branch is one it may contribute to, every scope to refer
  -- to is one it may read, and reserved types are lifted and branches created only with C on
  -- `$branches`.
  pub effective-IsOffer :
      (a : R.Archive) (asked bounds : Constraints) (x : Exchange R)
      → (effective c a asked x).0 ≡ ok bounds
      → (offered : Constraints) × IsOffer c x.principal asked offered
        × (bounds ≡ R.narrow asked offered)
  unfolding effective creatable_branches
  effective-IsOffer a asked bounds x h =
      let y = (allow_all {R = R} c asked.branches x).1 in
      let z = (readable_scopes {R = R} c a y).1 in
      let w = (creatable_branches {R = R} c a asked.branches z).1 in
      let py : y.principal ≡ x.principal =
        ap (λ (t : Exchange R). t.principal) (allow_all-Reports c asked.branches x) in
      let pz : z.principal ≡ x.principal =
        ap (λ (t : Exchange R). t.principal) (readable_scopes-Reports c a y) ∙ py in
      let pw : w.principal ≡ x.principal =
        ap (λ (t : Exchange R). t.principal) (creatable_branches-Reports c a asked.branches z)
        ∙ pz in
      let (_, e, h1) = bind-eq-ok (allow_all {R = R} c asked.branches) _ x h in
      let (granted, g, h2) = bind-eq-ok (readable_scopes {R = R} c a) _ y h1 in
      let (created, k, h3) = bind-eq-ok (creatable_branches {R = R} c a asked.branches) _ z h2 in
      (
        record {
          branches = asked.branches;
          referencable = granted;
          lifted = lifted_types R c x.principal;
          creatable = created;
        },
        record {
          same_branches = refl;
          declared = allow_all-All asked.branches x tt e;
          readable =
              subst (λ p. All (IsAllowed c p read_right) granted) py
                (readable_scopes-All a y granted g);
          lifts = lifted_types-cases R c x.principal;
          creates =
              subst (λ p. (created ≡ []) ⊎ IsAllowed c p contribute_right branches) pz
                (creatable_branches-cases a asked.branches created z k);
        },
        cc,
      )
