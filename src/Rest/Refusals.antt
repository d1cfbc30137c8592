-- ===== src/Rest/Refusals.antt =====
-- adapters/endpoints/rest_http: what a request without a good credential gets.
use ranke_db.Base.{◌≡◌, refl, sym, ap, ◌∙◌, inl, inr, Text, ok, err, Result-cases}
use mathlib.Core.Path.{subst}
use ranke_db.Errors.{Fault, Category, categorize_fault, cat_invalid}
use ranke_db.Auth.{Credential}
use ranke_db.Auth
use ranke_db.Core.Library.{Ranke}
use ranke_db.Core.Values.{Operation, Server, Exchange}
use ranke_db.Core.Gate.{handle_unauthenticated}
use ranke_db.Wire.{Codec}
use ranke_db.Rest.{HttpRequest, Response, Inputs, bytes}
use ranke_db.Rest.Credentials.{extract_credential}
use ranke_db.Rest.Cors.{CorsPolicy, preflight_answer}
use ranke_db.Rest.Browsers.{untouched, preflight, readable, with_cors-CorsAnswer}
use ranke_db.Rest.Respond.{write_error, fail}
use ranke_db.Rest.Handlers.{finish, with_credential, routed, serve}
use ranke_db.Rest.Answers.{op_of, Answers, before, asked}
use ranke_db.Rest.Calls.{serve_call-Answers}
use ranke_db.Rest.Outcomes.{behind}

module _ {R : Ranke} (C : Codec R) (I : Inputs R) (c : Server) (r : HttpRequest R)
    (x : Exchange R) where
  -- an answer that gives nothing away, on a server where nothing has happened
  abbrev pub IsRefused : Response × Exchange R → Type 0
  IsRefused a = (a.1 ≡ x) × ((b : Text) → a.0.body ≡ bytes b → ⊥)

  error_gives_nothing : (cat : Category) (b : Text) → (write_error cat).body ≡ bytes b → ⊥
  unfolding write_error
  error_gives_nothing cat b h = cc

  answers-IsRefused :
      (k : Credential) (op : Operation) (a : Response × Exchange R) (e : Fault)
      → Auth.authenticate c.auth k ≡ err e
      → Answers C I c k r x op a
      → IsRefused a
  unfolding fail
  answers-IsRefused k op a e u (before cat early) = (refl, error_gives_nothing cat)
  answers-IsRefused k op a e u (asked req render n o s) =
      let h = handle_unauthenticated c req x e (ap (Auth.authenticate c.auth) n ∙ u) in
      subst (λ y. IsRefused (finish render y)) (sym h)
        (refl, error_gives_nothing (categorize_fault e))

  behind-IsRefused :
      ((k : Credential)
        → extract_credential r.headers ≡ ok k
        → (e : Fault) × (Auth.authenticate c.auth k ≡ err e))
      → IsRefused (behind C I c r x)
  unfolding with_credential
  behind-IsRefused u = elim (Result-cases (extract_credential r.headers)) [
    | inl (e, h) ↦ rw (h, with_credential) (refl, error_gives_nothing cat_invalid)
    | inr (k, h) ↦
        let (e, g) = u k h in
        rw (h, with_credential)
          (answers-IsRefused k (op_of r.call) _ e g (serve_call-Answers C I c k r x r.call))
  ]

  -- A request whose credential the server does not accept, or that presents two, carries nothing of
  -- the server's away and leaves the server as it was, whatever it calls.
  pub serve-IsRefused :
      (policy : CorsPolicy)
      → ((k : Credential)
          → extract_credential r.headers ≡ ok k
          → (e : Fault) × (Auth.authenticate c.auth k ≡ err e))
      → IsRefused (serve C I c policy r x)
  unfolding serve preflight_answer
  serve-IsRefused policy u =
      let refused_behind = behind-IsRefused u in
      elim (with_cors-CorsAnswer policy (routed C I c) r x) [
        | untouched n h ↦ subst IsRefused (sym h) refused_behind
        | preflight d p h ↦ subst IsRefused (sym h) (refl, λ b g. cc)
        | readable d p h g ↦ (
          h ∙ refused_behind.0,
          λ b i. refused_behind.1 b (sym (ap (λ (q : Response). q.body) g) ∙ i),
        )
      ]
