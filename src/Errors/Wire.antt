-- ===== src/Errors/Wire.antt =====
-- A failure's way over the wire: category, status and code in the server, the client's sentinel.
use ranke_db.Base.{◌≡◌, refl, Option, none, some, text_eq}
use ranke_db.Errors.{
  Category, no_category, cat_unauthenticated, cat_forbidden, cat_not_found, cat_conflict, cat_busy,
  cat_invalid, cat_unimplemented, cat_internal, ClientError, http_status, category_text, by_code,
  by_status, refusal, unwrap,
}

-- the client's sentinel for a category
abbrev pub client_error : Category → Option ClientError
client_error no_category = none
client_error cat_unauthenticated = some ClientError.unauthenticated
client_error cat_forbidden = some ClientError.forbidden
client_error cat_not_found = some ClientError.not_found
client_error cat_conflict = some ClientError.conflict
client_error cat_busy = some ClientError.busy
client_error cat_invalid = some ClientError.invalid
client_error cat_unimplemented = some ClientError.unimplemented
client_error cat_internal = none

-- For every category the client reads the same sentinel off the answer with its code as off the
-- status alone, where a proxy replaced the body: the one of that name, and none for `internal`.
pub unwrap-refusal :
    (c : Category)
    → (unwrap (refusal (http_status c) (some (category_text c))) ≡ client_error c)
      × (unwrap (refusal (http_status c) none) ≡ client_error c)
unfolding unwrap refusal http_status category_text by_code by_status text_eq
unwrap-refusal no_category = (refl, refl)
unwrap-refusal _ = (refl, refl)
