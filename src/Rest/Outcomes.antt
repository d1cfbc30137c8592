-- ===== src/Rest/Outcomes.antt =====
-- adapters/endpoints/rest_http: what a request may be answered and what it may do, through the whole
-- chain of the endpoint and the core.
use ranke_db.Base.{
  ◌≡◌, refl, sym, ap, ◌∙◌, ◌⊎◌, inl, inr, Bool, true, false, Result, ok, err, Result-cases,
}
use mathlib.Core.Path.{subst}
use ranke_db.Errors.{Fault, Category, categorize_fault}
use ranke_db.Auth.{Credential}
use ranke_db.Core.Library.{Ranke}
use ranke_db.Core.Values.{
  Operation, claim_contribute, dev_clock_advance, Request, Server, Exchange, Stream,
}
use ranke_db.Core.Execute.{handle}
use ranke_db.Core.Footprint.{is_run_op, Effect, reported, contributed, ran, advanced}
use ranke_db.Core.Handling.{handle-Effect}
use ranke_db.Wire.{Codec}
use ranke_db.Rest.{HttpRequest, Response, Inputs}
use ranke_db.Rest.Credentials.{extract_credential}
use ranke_db.Rest.Cors.{CorsPolicy, preflight_answer, is_preflight}
use ranke_db.Rest.Browsers.{
  IsAdmitted, origin_of, untouched, preflight, readable, with_cors-CorsAnswer,
}
use ranke_db.Rest.Handlers.{finish, with_credential, routed, serve}
use ranke_db.Rest.Answers.{IsAnswer, IsError, IsEarly, op_of, Answers, before, asked}
use ranke_db.Rest.Calls.{serve_call-Answers}

-- operations that may change more of the server than a request's own record
abbrev pub is_write : Operation → Bool
is_write claim_contribute = true
is_write dev_clock_advance = true
is_write op = is_run_op op

-- the exchange with nothing written but the request's own principal and report
abbrev pub IsUnchanged : {R : Ranke} → Exchange R → Exchange R → Type 0
IsUnchanged x y = y ≡ record x { principal = y.principal; report = y.report }

run_is_write : (op : Operation) → is_run_op op ≡ true → is_write op ≡ true
run_is_write claim_contribute h = refl
run_is_write dev_clock_advance h = refl
run_is_write _ h = h

module _ {R : Ranke} (c : Server) (req : Request R) (x : Exchange R) where
  effect-IsUnchanged :
      (op : Operation) (y : Exchange R)
      → is_write op ≡ false
      → Effect c req x op y
      → IsUnchanged x y
  effect-IsUnchanged op y w (reported h) = h
  effect-IsUnchanged op y w (contributed e t i l h f) = let bad = ap is_write (sym e) ∙ w in cc
  effect-IsUnchanged op y w (ran e o q h) = let bad = sym (run_is_write op e) ∙ w in cc
  effect-IsUnchanged op y w (advanced e d h) = let bad = ap is_write (sym e) ∙ w in cc

module _ {R : Ranke} (c : Server) (op : Operation) (k : Result Fault Credential)
    (x : Exchange R) where
  -- How an answer comes about: an error before the core is asked; the core's own error; or a success
  -- of the operation that the core ended well, where rendering what it served may still fail.
  pub data IsTold (a : Response) : Type 0 where
    early : (cat : Category) → IsEarly cat → IsError cat a → IsTold a
    core_failed :
        (req : Request R)
        → k ≡ ok req.credential
        → req.op ≡ op
        → (e : Fault) → (handle c req x).0 ≡ err e
        → IsError (categorize_fault e) a
        → IsTold a
    core_served :
        (req : Request R)
        → k ≡ ok req.credential
        → req.op ≡ op
        → (s : Stream R) → (handle c req x).0 ≡ ok s
        → IsAnswer op a
        → IsTold a

module _ {R : Ranke} (render : Stream R → Response) where
  finish_state : (o : Result Fault (Stream R) × Exchange R) → (finish render o).1 ≡ o.1
  finish_state (err e, x) = refl
  finish_state (ok s, x) = refl

module _ {R : Ranke} (C : Codec R) (I : Inputs R) (c : Server) (r : HttpRequest R)
    (x : Exchange R) where
  -- what the headers present, and the part of the chain that knows it
  abbrev pub Told : Response → Type 0
  Told = IsTold c (op_of r.call) (extract_credential r.headers) x

  answers-IsUnchanged :
      (k : Credential) (op : Operation) (a : Response × Exchange R)
      → Answers C I c k r x op a
      → is_write op ≡ false
      → IsUnchanged x a.1
  answers-IsUnchanged k op a (before cat q) w = refl
  answers-IsUnchanged k op a (asked req render e o s) w =
      subst (IsUnchanged x) (sym (finish_state render (handle c req x))) (
        effect-IsUnchanged c req x req.op (handle c req x).1 (ap is_write o ∙ w)
          (handle-Effect c req x))

  -- the part of the chain behind the cross-origin policy
  abbrev pub behind : Response × Exchange R
  behind = routed C I c r x

  behind-IsUnchanged : is_write (op_of r.call) ≡ false → IsUnchanged x behind.1
  unfolding with_credential
  behind-IsUnchanged w = elim (Result-cases (extract_credential r.headers)) [
    | inl (e, h) ↦ rw (h, with_credential) refl
    | inr (k, h) ↦
        rw (h, with_credential)
          (answers-IsUnchanged k (op_of r.call) _ (serve_call-Answers C I c k r x r.call) w)
  ]

  -- an answer to the request itself, or to the preflight of an origin that the policy admits
  abbrev pub IsAnswered : CorsPolicy → Response → Type 0
  IsAnswered policy a =
      (IsAdmitted policy r × (is_preflight r ≡ true) × (a ≡ preflight_answer (origin_of r)))
      ⊎ Told a

  -- A call whose operation only reads leaves the world, the registry of runs and the clock as they
  -- were: whoever makes it, from wherever, and whatever it is answered.
  pub serve-IsUnchanged :
      (policy : CorsPolicy)
      → is_write (op_of r.call) ≡ false
      → IsUnchanged x (serve C I c policy r x).1
  unfolding serve
  serve-IsUnchanged policy w = elim (with_cors-CorsAnswer policy (routed C I c) r x) [
    | untouched n h ↦ subst (λ a. IsUnchanged x a.1) (sym h) (behind-IsUnchanged w)
    | preflight d p h ↦ subst (λ a. IsUnchanged x a.1) (sym h) refl
    | readable d p h g ↦ subst (IsUnchanged x) (sym h) (behind-IsUnchanged w)
  ]
