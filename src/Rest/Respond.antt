-- ===== src/Rest/Respond.antt =====
-- adapters/endpoints/rest_http/respond.go: how a stream and an error become a response.
use ranke_db.Base.{
  ℕ, Bool, false, ◌||◌, none, some, [], ◌∷◌, ◌++◌, Text, text, text_eq, any, map, split_on,
  if◌then◌else◌,
}
use ranke_db.Base.Dict.{Dict, insert}
use ranke_db.Errors.{Fault, Category, cat_busy, categorize_fault, http_status, category_text}
use ranke_db.Core.Library.{Ranke}
use ranke_db.Core.Values.{Stream}
use ranke_db.Wire.{Codec, media_json}
use ranke_db.Wire.Writer.{buffer, Count}
use ranke_db.Wire.Serve.{content_type, write_to}
use ranke_db.Wire.Split.{trim_space}
use ranke_db.Rest.{HttpRequest, Response, Inputs, bytes, error_code, nothing, header}

abbrev pub content_type_header : Text
content_type_header = text "Content-Type"

abbrev pub retry_after_seconds : Text
retry_after_seconds = text "5"

-- `writeError`, its message left out
unfoldable pub write_error : Category → Response
unfolding http_status category_text
write_error cat =
    let json = (content_type_header, media_json) ∷ [] in
    record {
      status = http_status cat;
      headers = elim cat [ cat_busy ↦ (text "Retry-After", retry_after_seconds) ∷ json | _ ↦ json ];
      body = error_code (category_text cat);
    }

-- `fail`
unfoldable pub fail : Fault → Response
unfolding write_error categorize_fault
fail e = write_error (categorize_fault e)

-- `respondBytes`, under the headers that were set before it
unfoldable pub respond_bytes : Dict Text → Text → ℕ → Text → Response
unfolding insert
respond_bytes headers media status body = record {
  status = status;
  headers = insert content_type_header media headers;
  body = bytes body;
}

-- `matches`
unfoldable pub matches : Text → Text → Bool
unfolding trim_space split_on text_eq
matches [] etag = false
matches (c ∷ h) etag =
    any (λ candidate. text_eq candidate (text "*") || text_eq candidate etag)
      (map trim_space (split_on b',' (c ∷ h)))

-- the answer with no body
unfoldable pub not_modified : Dict Text → Response
not_modified headers = record { status = 304; headers = headers; body = nothing }

-- the validator of an id
abbrev pub strong_tag : Text → Text
strong_tag id = b'"' ∷ (id ++ (b'"' ∷ []))

-- the validator of a body with this hash
abbrev pub weak_tag : Text → Text
weak_tag hash = text "W/\"" ++ (hash ++ (b'"' ∷ []))

abbrev pub cached : Text → Text → Dict Text
cached etag policy = (text "Etag", etag) ∷ (text "Cache-Control", policy) ∷ []

module _ {R : Ranke} (C : Codec R) where
  -- what a stream writes into memory: its bytes, the count and the error
  abbrev pub buffered : Stream R → Count × Text
  buffered stream = write_to C buffer stream []

  -- `respond`, under the headers that were set before it; an error after the status is dropped
  unfoldable pub respond : Dict Text → Stream R → ℕ → Response
  unfolding respond_bytes write_to content_type
  respond headers stream status =
      respond_bytes headers (content_type C stream) status (buffered stream).1

  -- `respondImmutable` for an id
  unfoldable pub respond_immutable : HttpRequest R → Stream R → Text → Response
  unfolding respond matches not_modified header
  respond_immutable r stream id =
      let etag = strong_tag id in
      let headers = cached etag (text "public, max-age=31536000, immutable") in
      if matches (header r.headers (text "If-None-Match")) etag
      then not_modified headers
      else respond headers stream 200

  module _ (I : Inputs R) where
    -- `respondRevalidated`
    unfoldable pub respond_revalidated : HttpRequest R → Stream R → Response
    unfolding respond_bytes matches not_modified header write_to content_type fail
    respond_revalidated r stream = elim (buffered stream).0.1 [
      | some e ↦ fail e
      | none ↦
          let body = (buffered stream).1 in
          let etag = weak_tag (I.digest body) in
          let headers = cached etag (text "no-cache") in
          if matches (header r.headers (text "If-None-Match")) etag
          then not_modified headers
          else respond_bytes headers (content_type C stream) 200 body
    ]
