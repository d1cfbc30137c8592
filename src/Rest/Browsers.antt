-- ===== src/Rest/Browsers.antt =====
-- adapters/endpoints/rest_http/cors.go: what a cross-origin policy changes of a handler.
use ranke_db.Base.{
  ◌≡◌, refl, ap, ◌∙◌, inl, inr, Bool, true, false, not, ◌&&◌, ◌||◌, List, [], ◌∷◌, Text, text,
  text_eq, any, trim_right, arith, Bool-cases,
}
use ranke_db.Core.Library.{Ranke}
use ranke_db.Core.Values.{Exchange}
use ranke_db.Rest.{HttpRequest, Response, header}
use ranke_db.Rest.Cors.{
  CorsPolicy, add_trimmed, trimmed, add_origins, enabled, allows, reading_headers, is_preflight,
  preflight_answer, Handler, with_cors,
}

abbrev pub origin_of : {R : Ranke} → HttpRequest R → Text
origin_of r = header r.headers (text "Origin")

-- an origin that the policy lets a script read for
abbrev pub IsAdmitted : {R : Ranke} → CorsPolicy → HttpRequest R → Type 0
IsAdmitted p r =
    (enabled p ≡ true) × (text_eq (origin_of r) [] ≡ false) × (allows p (origin_of r) ≡ true)

-- what a policy makes of a handler
pub data CorsAnswer {R : Ranke} (p : CorsPolicy) (next : Handler R) (r : HttpRequest R)
    (x : Exchange R) (a : Response × Exchange R) : Type 0 where
  untouched : (IsAdmitted p r → ⊥) → a ≡ next r x → CorsAnswer p next r x a
  preflight :
      IsAdmitted p r
      → is_preflight r ≡ true
      → a ≡ (preflight_answer (origin_of r), x)
      → CorsAnswer p next r x a
  readable :
      IsAdmitted p r
      → is_preflight r ≡ false
      → a.1 ≡ (next r x).1
      → a.0 ≡ record (next r x).0 { headers = reading_headers (origin_of r) (next r x).0.headers }
      → CorsAnswer p next r x a

module _ {R : Ranke} (p : CorsPolicy) (next : Handler R) (r : HttpRequest R) (x : Exchange R) where
  pub with_cors-CorsAnswer : CorsAnswer p next r x (with_cors p next r x)
  unfolding with_cors
  with_cors-CorsAnswer = elim (Bool-cases (enabled p)) [
    | inr e ↦ untouched (λ d. ground (arith, e, d)) (rw (e, with_cors) refl)
    | inl e ↦ elim (Bool-cases (text_eq (origin_of r) [])) [
      | inl f ↦ untouched (λ d. ground (arith, f, d)) (rw (e, with_cors) (rw (f) refl))
      | inr f ↦ elim (Bool-cases (allows p (origin_of r))) [
        | inr g ↦ untouched (λ d. ground (arith, g, d)) (rw (e, with_cors) (rw (f) (rw (g) refl)))
        | inl g ↦ elim (Bool-cases (is_preflight r)) [
          | inl h ↦ preflight (e, f, g) h (rw (e, with_cors) (rw (f) (rw (g) (rw (h) refl))))
          | inr h ↦
              readable (e, f, g) h (rw (e, with_cors) (rw (f) (rw (g) (rw (h) refl))))
                (rw (e, with_cors) (rw (f) (rw (g) (rw (h) refl))))
        ]
      ]
    ]
  ]

-- whether a declared entry, trimmed, admits an origin
abbrev pub entry_admits : Text → Text → Bool
entry_admits origin entry =
    text_eq entry (text "*") || (not (text_eq entry []) && text_eq (trim_right b'/' origin) entry)

allows-add_trimmed :
    (p : CorsPolicy) (entry origin : Text)
    → allows (add_trimmed p entry) origin ≡ (entry_admits origin entry || allows p origin)
unfolding add_trimmed allows text_eq
allows-add_trimmed p [] origin = refl
allows-add_trimmed p (c ∷ entry) origin = elim (Bool-cases (text_eq (c ∷ entry) (text "*"))) [
  | inl e ↦ rw (e, add_trimmed) refl
  | inr e ↦ rw (e, add_trimmed) (ground arith)
]

-- A policy that entries were added to admits an origin when it did before or one of the entries does:
-- a star, or the origin itself up to the white space around the entry and slashes at either's end.
pub allows-add_origins :
    (p : CorsPolicy) (os : List Text) (origin : Text)
    → allows (add_origins p os) origin
      ≡ (any (λ o. entry_admits origin (trimmed o)) os || allows p origin)
unfolding add_origins
allows-add_origins p [] origin = refl
allows-add_origins p (o ∷ os) origin =
    let rest = allows-add_origins (add_trimmed p (trimmed o)) os origin in
    let one = allows-add_trimmed p (trimmed o) origin in
    rest ∙ ap (λ b. any (λ o. entry_admits origin (trimmed o)) os || b) one ∙ ground arith
