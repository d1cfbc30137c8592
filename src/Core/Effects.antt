-- ===== src/Core/Effects.antt =====
-- internal/core/execute.go, `contribute`: when the library is called to change the world.
use ranke_db.Base.{
  ◌≡◌, refl, ◌∙◌, ap, inl, inr, ◌⊎◌, false, some, [], ◌∷◌, ◌++◌, ok, err, Bool-cases, Option-cases,
  Result-cases,
}
use mathlib.Core.Path.{subst}
use ranke_db.Errors.{Fault, fault}
use ranke_db.Core.Library.{Ranke, Constraints}
use ranke_db.Core.Values.{Request, Server, Exchange, Stream}
use ranke_db.Core.Exec.{Exec}
use ranke_db.Core.Contribute.{effective, carry_out, contribute_under, contribute}
use ranke_db.Core.Frame.{archive-Reports, effective-Reports}
use ranke_db.Core.Pipeline.{archive}
use ranke_db.Core.Contribute.{is_empty}
use ranke_db.Core.Values.{may_reference}
use ranke_db.Core.Exec.{bind-Ends}
use ranke_db.Core.Licence.{IsOffer, effective-IsOffer}
use ranke_db.Errors.{invalid_request}

module _ {R : Ranke} (c : Server) where
  -- a contribution that the library is called for, on the exchange `y` that the checks leave
  pub record Licence (req : Request R) (x : Exchange R) : Type 0 where
    pub body : R.Body
    pub asked : Constraints
    pub offered : Constraints
    pub y : Exchange R
    pub carried : req.body ≡ some body
    pub parsed : R.wire_constraints body ≡ ok asked
    pub declares : is_empty asked.branches ≡ false
    pub offers : IsOffer c x.principal asked offered
    pub unchanged : y ≡ record x { report = y.report }
    pub calls : contribute c req x ≡ carry_out (R.narrow asked offered) asked.branches body y

  -- ended with an error before any call that could change the world
  abbrev pub Stops : Exec (Exchange R) (Stream R) → Exchange R → Type 0
  Stops m x = (e : Fault) × (m x ≡ (err e, record x { report = (m x).1.report }))

  Stops-with :
      (m : Exec (Exchange R) (Stream R)) (x y : Exchange R) (e : Fault)
      → m x ≡ (err e, y)
      → y ≡ record x { report = y.report }
      → Stops m x
  Stops-with m x y e h k = (e, cc)

  -- A contribution either ends with an error and has written the report alone, or its body declares
  -- a branch and it is the library's calls under what the body asks for, narrowed to an offer that
  -- never exceeds the grants, on an exchange where the report alone has changed.
  pub contribute-cases :
      (req : Request R) (x : Exchange R) → Stops (contribute c req) x ⊎ Licence req x
  unfolding contribute contribute_under
  contribute-cases req x = elim (Option-cases req.body) [
    | inl e ↦ inl (Stops-with (contribute c req) x x (fault invalid_request) (rw (e) refl) refl)
    | inr (body, e) ↦ elim (Result-cases (R.wire_constraints body)) [
      | inl (f, g) ↦
          inl
            (Stops-with (contribute c req) x x (fault invalid_request) (rw (e) (rw (g) refl)) refl)
      | inr (asked, g) ↦ elim (Bool-cases (is_empty asked.branches)) [
        | inl k ↦ inl (
            Stops-with (contribute c req) x x (fault invalid_request)
              (rw (e) (rw (g) (rw (k) refl))) refl)
        | inr k ↦ elim (bind-Ends (archive {R = R} c) (λ a. effective {R = R} c a asked) x) [
          | inl (f, l, _) ↦ inl (
              Stops-with (contribute c req) x (archive {R = R} c x).1 f
                (rw (e) (rw (g) (rw (k) (rw (l) refl)))) (archive-Reports c x))
          | inr (a, l, _) ↦
              let y = (archive {R = R} c x).1 in
              let z = (effective {R = R} c a asked y).1 in
              let kept : z ≡ record x { report = z.report } =
                effective-Reports c a asked y
                ∙ ap {A = Exchange R} (λ t. record t { report = z.report }) (archive-Reports c x) in
              elim (Result-cases (effective {R = R} c a asked y).0) [
                | inl (f, m) ↦ inl (
                    Stops-with (contribute c req) x z f
                      (rw (e) (rw (g) (rw (k) (rw (l) (rw (m) refl))))) kept)
                | inr (bounds, m) ↦
                    let (offered, h, n) = effective-IsOffer c a asked bounds y m in
                    let same : y.principal ≡ x.principal =
                      ap (λ (t : Exchange R). t.principal) (archive-Reports c x) in
                    let report =
                      z.report ++ (may_reference bounds.referencable bounds.creatable ∷ []) in
                    inr (record {
                      body = body;
                      asked = asked;
                      offered = offered;
                      y = record z { report = report };
                      carried = e;
                      parsed = g;
                      declares = k;
                      offers = subst (λ p. IsOffer c p asked offered) same h;
                      unchanged = ap {A = Exchange R} (λ t. record t { report = report }) kept;
                      calls = rw (e) (rw (g) (rw (k) (rw (l) (rw (m) (rw (n) refl)))));
                    })
              ]
        ]
      ]
    ]
  ]
