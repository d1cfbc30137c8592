-- ===== src/Auth/Macaroon/Laws.antt =====
-- The caveats of a principal that a macaroon authenticates.
use ranke_db.Base.{
  ◌≡◌, ◌≢◌, inl, inr, Option, none, some, List, [], ◌∷◌, ◌++◌, Text, text_eq_iff, ok, arith,
  Option-cases, Result-cases,
}
use mathlib.Core.Path.{subst}
use mathlib.Core.List.{append-nil, append_assoc}
use ranke_db.Access.Grant.{Grant, parse_grant}
use ranke_db.Access.Checker.{Principal}
use ranke_db.Access.Checker.Built.{Parses}
use ranke_db.Auth.Macaroon.{Library, check_caveat, authenticate_macaroon}

-- a check run through conditions in their order
abbrev pub run_checks :
    (List Grant → Text → Option (List Grant)) → List Grant → List Text → Option (List Grant)
run_checks check gs [] = some gs
run_checks check gs (c ∷ cs) = elim (check gs c) [
  | none ↦ none
  | some gs' ↦ run_checks check gs' cs
]

-- What the library documents of `Verify`: where it succeeds, the check was run on the first-party
-- conditions of the macaroon, in their order, and refused none.
pub record Verifies (L : Library) : Type 0 where
  pub conditions : L.Macaroon → List Text
  pub checked :
      (root_key : Text) (check : List Grant → Text → Option (List Grant)) (gs gs' : List Grant)
      (m : L.Macaroon)
      → L.verify root_key check gs m ≡ some gs'
      → run_checks check gs (conditions m) ≡ some gs'

record Extends (conditions : List Text) (gs gs' : List Grant) : Type 0 where
  new : List Grant
  parsed : Parses conditions new
  all : gs' ≡ gs ++ new

run_checks-Extends :
    (conditions : List Text) (gs gs' : List Grant)
    → run_checks check_caveat gs conditions ≡ some gs'
    → Extends conditions gs gs'
unfolding check_caveat
run_checks-Extends [] gs gs' h = record {
  new = [];
  parsed = tt;
  all = ground (arith, append-nil gs);
}
run_checks-Extends (c ∷ cs) gs gs' h = elim (Result-cases (parse_grant c)) [
  | inl (e, p) ↦ ground arith
  | inr (g, p) ↦
      let x = run_checks-Extends cs (gs ++ (g ∷ [])) gs' (ground arith) in
      record {
        new = g ∷ x.new;
        parsed = (p, x.parsed);
        all = ground (arith, x.all, append_assoc gs (g ∷ []) x.new);
      }
]

module _ (L : Library) (V : Verifies L) where
  -- What an authenticated macaroon is: it decodes and verifies under the root key, its id is the
  -- account and not empty, and the caveats are what its conditions parse to, one for one.
  pub record IsAttenuated (root_key token : Text) (p : Principal) : Type 0 where
    pub macaroon : L.Macaroon
    pub decoded : L.decode token ≡ some macaroon
    pub verified : L.verify root_key check_caveat [] macaroon ≡ some p.caveats
    pub account : L.id macaroon ≡ p.account
    pub nonempty : p.account ≢ []
    pub caveats : Parses (V.conditions macaroon) p.caveats

  -- A macaroon that authenticates verifies under the root key; its id is the account and is not
  -- empty, and the principal's caveats are the grants of all its conditions, in their order: a
  -- condition that is no grant refuses the macaroon, and none is dropped.
  pub authenticate_macaroon-IsAttenuated :
      (root_key token : Text) (p : Principal)
      → authenticate_macaroon L root_key token ≡ ok p
      → IsAttenuated root_key token p
  unfolding authenticate_macaroon
  authenticate_macaroon-IsAttenuated root_key token p h = elim (Option-cases (L.decode token)) [
    | inl e ↦ ground arith
    | inr (m, e) ↦ elim (Option-cases (L.verify root_key check_caveat [] m)) [
      | inl f ↦ ground arith
      | inr (caveats, f) ↦
          let x =
            run_checks-Extends (V.conditions m) [] caveats
              (V.checked root_key check_caveat [] caveats m f) in
          record {
            macaroon = m;
            decoded = e;
            verified = ground arith;
            account = ground arith;
            nonempty = λ q. ground (arith, text_eq_iff (L.id m) []);
            caveats = subst (Parses (V.conditions m)) (ground (arith, x.all)) x.parsed;
          }
    ]
  ]
