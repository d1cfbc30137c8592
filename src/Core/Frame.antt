-- ===== src/Core/Frame.antt =====
-- What a function of the core leaves as it was: internal/core/execute.go, its read arms and the
-- steps before the library is called to contribute.
use ranke_db.Base.{
  ◌≡◌, refl, ap, ◌∙◌, ◌⊎◌, inl, inr, ℕ, Option, none, some, List, [], ◌∷◌, Text, Result, ok, err,
  arith, Option-cases,
}
use ranke_db.Errors.{Fault}
use ranke_db.Access.Grant.{contribute_right}
use ranke_db.Core.Library.{Ranke, Constraints}
use ranke_db.Core.Values.{Request, Server, Exchange, Stream}
use ranke_db.Core.Exec.{Exec, resume, ◌>>=◌}
use ranke_db.Core.Pipeline
use ranke_db.Core.Read
use ranke_db.Core.Values.{verification_get, verification_cancel}
use ranke_db.Core.Execute.{start_run, delete_run, verification}
use ranke_db.Verification.Values.{Config}
use ranke_db.Verification.Limit.{Op, apply, start_op, stop_op, remove_op}
use ranke_db.Core.Contribute.{
  allow_all, carry_out, readable_scopes, creatable_of, creatable_branches, effective,
}

module _ {R : Ranke} where
  -- a function that writes the report alone
  abbrev pub Reports : {A : Type 0} → Exec (Exchange R) A → Type 0
  Reports m = (x : Exchange R) → (m x).1 ≡ record x { report = (m x).1.report }

  resume-Reports :
      {A B : Type 0} (k : A → Exec (Exchange R) B)
      → ((a : A) → Reports (k a))
      → (r : Result Fault A) (t x : Exchange R) → t ≡ record x { report = t.report }
      → (resume r t k).1 ≡ record x { report = (resume r t k).1.report }
  resume-Reports k h (ok a) t x e =
      h a t ∙ ap {A = Exchange R} (λ y. record y { report = (k a t).1.report }) e
  resume-Reports k h (err f) t x e = e

  pub bind-Reports :
      {A B : Type 0} (m : Exec (Exchange R) A) (k : A → Exec (Exchange R) B)
      → Reports m
      → ((a : A) → Reports (k a))
      → Reports (m >>= k)
  bind-Reports m k hm hk x = resume-Reports k hk (m x).0 (m x).1 x (hm x)

  pub scoped_claim-Reports :
      (scope : Text) (id : Option R.ClaimId) (a : R.Archive)
      → Reports {A = R.Claim} (Read.scoped_claim scope id a)
  unfolding Read.scoped_claim Pipeline.branch
  scoped_claim-Reports scope none a x = refl
  scoped_claim-Reports scope (some id) a x = ground arith

  pub query-Reports : (req : Request R) (a : R.Archive) → Reports {A = Stream R} (Read.query req a)
  unfolding Read.query
  query-Reports req a x = ground arith

  pub claim-Reports : (req : Request R) (a : R.Archive) → Reports {A = Stream R} (Read.claim req a)
  unfolding Read.claim
  claim-Reports req a =
      bind-Reports (Read.scoped_claim req.branch req.claim_id a) _
        (scoped_claim-Reports req.branch req.claim_id a) (λ found x. ground arith)

  pub scoped_content-Reports :
      (scope : Text) (id : R.ClaimId) (a : R.Archive)
      → Reports {A = R.Content} (Read.scoped_content scope id a)
  unfolding Read.scoped_content Pipeline.branch
  scoped_content-Reports scope id a x = ground arith

  pub content-Reports :
      (req : Request R) (a : R.Archive) → Reports {A = Stream R} (Read.content req a)
  unfolding Read.content
  content-Reports req a x = elim (Option-cases req.claim_id) [
    | inl e ↦ ground arith
    | inr (id, e) ↦ ground (arith, scoped_content-Reports req.branch id a x)
  ]

  pub head-Reports : (req : Request R) (a : R.Archive) → Reports {A = Stream R} (Read.head req a)
  unfolding Read.head Pipeline.branch
  head-Reports req a x = ground arith

  pub info-Reports : (req : Request R) (a : R.Archive) → Reports {A = Stream R} (Read.info req a)
  unfolding Read.info Pipeline.branch
  info-Reports req a x = ground arith

  pub describe-Reports : (a : R.Archive) → Reports {A = Stream R} (Read.describe a)
  unfolding Read.describe
  describe-Reports a x = ground arith

  pub listing-Reports : (a : R.Archive) → Reports {A = Stream R} (Read.listing a)
  unfolding Read.listing
  listing-Reports a x = ground arith

  module _ (c : Server) where
    pub allow-Reports : (right : ℕ) (b : Text) → Reports {A = Unit} (Pipeline.allow c right b)
    unfolding Pipeline.allow
    allow-Reports right b x = ground arith

    pub allow_all-Reports : (bs : List Text) → Reports {A = Unit} (allow_all c bs)
    unfolding allow_all
    allow_all-Reports [] x = refl
    allow_all-Reports (b ∷ bs) x =
        bind-Reports (Pipeline.allow c contribute_right b) (λ _. allow_all c bs)
          (allow-Reports contribute_right b) (λ _. allow_all-Reports bs) x

    pub archive-Reports : Reports {A = R.Archive} (Pipeline.archive c)
    unfolding Pipeline.archive
    archive-Reports x = ground arith

    pub readable_scopes-Reports : (a : R.Archive) → Reports {A = List Text} (readable_scopes c a)
    unfolding readable_scopes
    readable_scopes-Reports a x = ground arith

    pub creatable_branches-Reports :
        (a : R.Archive) (bs : List Text) → Reports {A = List Text} (creatable_branches c a bs)
    unfolding creatable_branches creatable_of
    creatable_branches-Reports a bs x = ground arith

    pub effective-Reports :
        (a : R.Archive) (asked : Constraints) → Reports {A = Constraints} (effective c a asked)
    unfolding effective creatable_branches creatable_of readable_scopes
    effective-Reports a asked =
        bind-Reports (allow_all c asked.branches) _ (allow_all-Reports asked.branches)
          (λ _ x. ground arith)

  -- the exchange after an operation of the registry
  abbrev pub Runs : {A : Type 0} → Exec (Exchange R) A → Exchange R → Op → Type 0
  Runs m x op = (m x).1 ≡ record x { runs = apply x.runs op; report = (m x).1.report }

  pub start_run-Runs :
      (req : Request R) (a : R.Archive) (x : Exchange R)
      → ((start_run req a x).1 ≡ record x { report = (start_run req a x).1.report })
        ⊎ ((cfg : Config) × (req.ver_config ≡ some cfg)
            × Runs {A = Stream R}
                (start_run req a)
                x
                (start_op (some (R.id_text (R.archive_head a))) (R.verify x.world a) cfg x.now))
  unfolding start_run apply
  start_run-Runs req a x = elim (Option-cases req.ver_config) [
    | inl e ↦ inl (ground arith)
    | inr (cfg, e) ↦ inr (cfg, e, ground arith)
  ]

  pub stop_run-Runs :
      (req : Request R) (a : R.Archive) (x : Exchange R)
      → Runs {A = Stream R} (verification verification_cancel req a) x (stop_op req.ver_id)
  unfolding verification apply
  stop_run-Runs req a x = ground arith

  pub delete_run-Runs :
      (req : Request R) (x : Exchange R)
      → Runs {A = Stream R} (delete_run req) x (remove_op req.ver_id)
  unfolding delete_run apply
  delete_run-Runs req x = ground arith

  pub get_run-Reports :
      (req : Request R) (a : R.Archive)
      → Reports {A = Stream R} (verification verification_get req a)
  unfolding verification
  get_run-Reports req a x = ground arith

  pub carry_out-Worlds :
      (bounds : Constraints) (bs : List Text) (body : R.Body) (x : Exchange R)
      → (carry_out bounds bs body x).1 ≡ record x {
        world = (carry_out bounds bs body x).1.world;
        report = (carry_out bounds bs body x).1.report;
      }
  unfolding carry_out
  carry_out-Worlds bounds bs body x = ground arith
