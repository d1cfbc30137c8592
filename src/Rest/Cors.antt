-- ===== src/Rest/Cors.antt =====
-- adapters/endpoints/rest_http/cors.go: which origins a browser may read the API from.
use ranke_db.Base.{
  Bool, true, false, not, ◌&&◌, ◌||◌, List, [], ◌∷◌, Text, text, text_eq, any, split_on, trim_right,
  Result, ok, ◌>>=◌, if◌then◌else◌,
}
use ranke_db.Base.Dict.{Dict, insert}
use ranke_db.Core.Library.{Ranke}
use ranke_db.Core.Values.{Exchange}
use ranke_db.Storage.{Unresolved, has_value, get}
use ranke_db.Wire.Split.{trim_space}
use ranke_db.Rest.{HttpRequest, Response, nothing, header}

-- `corsPolicy`, its set of origins as a list
pub record CorsPolicy : Type 0 where
  pub origins : List Text
  pub any_origin : Bool

abbrev pub closed : CorsPolicy
closed = record { origins = []; any_origin = false }

-- one round of the loop of `corsFrom`, given the origin without what surrounds it
unfoldable pub add_trimmed : CorsPolicy → Text → CorsPolicy
unfolding text_eq
add_trimmed p origin =
    if text_eq origin []
    then p
    else if text_eq origin (text "*")
    then record p { any_origin = true }
    else record p { origins = origin ∷ p.origins }

-- an entry without the white space around it and the slashes at its end
unfoldable pub trimmed : Text → Text
unfolding trim_space trim_right
trimmed declared = trim_right b'/' (trim_space declared)

unfoldable pub add_origins : CorsPolicy → List Text → CorsPolicy
unfolding add_trimmed trimmed
add_origins p [] = p
add_origins p (o ∷ os) = add_origins (add_trimmed p (trimmed o)) os

-- `corsFrom` of the transport's section
unfoldable pub cors_from : Dict (Result Unresolved Text) → Result Unresolved CorsPolicy
unfolding has_value get add_origins split_on
cors_from cfg = if not (has_value cfg (text "allowedOrigins")) then ok closed else (do
  declared ← get cfg (text "allowedOrigins")
  ok (add_origins closed (split_on b',' declared)))

-- `enabled`
unfoldable pub enabled : CorsPolicy → Bool
enabled p = p.any_origin || elim p.origins [ [] ↦ false | _ ∷ _ ↦ true ]

-- `allows`
unfoldable pub allows : CorsPolicy → Text → Bool
unfolding trim_right text_eq
allows p origin = p.any_origin || any (text_eq (trim_right b'/' origin)) p.origins

-- the headers that an allowed origin's answer carries
unfoldable pub reading_headers : Text → Dict Text → Dict Text
unfolding insert
reading_headers origin headers = insert (text "Access-Control-Allow-Origin") origin (
    insert (text "Vary") (text "Origin")
      (insert (text "Access-Control-Expose-Headers") (text "ETag") headers))

-- the answer to a preflight
unfoldable pub preflight_answer : Text → Response
unfolding reading_headers
preflight_answer origin = record {
  status = 204;
  headers = reading_headers origin (
      (text "Access-Control-Allow-Methods", text "GET, POST, DELETE, OPTIONS")
      ∷ (
        text "Access-Control-Allow-Headers",
        text "Content-Type, Authorization, X-API-Key, If-None-Match",
      )
      ∷ (text "Access-Control-Max-Age", text "600")
      ∷ []);
  body = nothing;
}

-- `http.Handler`: what it answers and what it does to the server
abbrev pub Handler : Ranke → Type 0
Handler R = HttpRequest R → Exchange R → Response × Exchange R

module _ {R : Ranke} where
  unfoldable pub is_preflight : HttpRequest R → Bool
  unfolding header text_eq
  is_preflight r =
      text_eq r.method (text "OPTIONS")
      && not (text_eq (header r.headers (text "Access-Control-Request-Method")) [])

  -- `withCORS`: its headers are set before the handler sets others
  unfoldable pub with_cors : CorsPolicy → Handler R → Handler R
  unfolding enabled allows header text_eq is_preflight preflight_answer reading_headers
  with_cors p next r x =
      let origin = header r.headers (text "Origin") in
      let (answer, y) = next r x in
      if not (enabled p)
      then next r x
      else if text_eq origin []
      then next r x
      else if not (allows p origin)
      then next r x
      else if is_preflight r
      then (preflight_answer origin, x)
      else (record answer { headers = reading_headers origin answer.headers }, y)
