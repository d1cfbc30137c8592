-- ===== src/Errors.antt =====
-- The errors of the server: the sentinels and `Categorize` of internal/core/core.go, the mappings of
-- library failures of internal/core/execute.go, the statuses of
-- adapters/endpoints/rest_http/respond.go and what client/errors.go makes of them. An error is the
-- list of sentinels that `errors.Is` finds in it; the messages are left out.
pub mod Mapping
pub mod Wire
mod Tests
use ranke_db.Base.{
  ℕ, Bool, true, false, ◌||◌, Option, none, some, List, [], ◌∷◌, Text, text, text_eq, any, ◌==◌,
  if◌then◌else◌,
}

pub data Sentinel : Type 0 where
  unauthenticated ambiguous_credentials invalid_request forbidden : Sentinel
  not_found conflict busy not_implemented : Sentinel
  lib_not_found lib_branch_not_found lib_unsupported lib_query_time_operand : Sentinel
  lib_sequencer_genesis lib_branch_not_creatable lib_unreadable_reference : Sentinel
  lib_reserved_type : Sentinel

abbrev pub index : Sentinel → ℕ
index unauthenticated = 0
index ambiguous_credentials = 1
index invalid_request = 2
index forbidden = 3
index not_found = 4
index conflict = 5
index busy = 6
index not_implemented = 7
index lib_not_found = 8
index lib_branch_not_found = 9
index lib_unsupported = 10
index lib_query_time_operand = 11
index lib_sequencer_genesis = 12
index lib_branch_not_creatable = 13
index lib_unreadable_reference = 14
index lib_reserved_type = 15

-- an error: the sentinels in its chain
pub record Fault : Type 0 where
  pub chain : List Sentinel

-- `fmt.Errorf("%w: …", s)`
abbrev pub fault : Sentinel → Fault
fault s = record { chain = s ∷ [] }

-- `errors.Is`
unfoldable pub is_in : Sentinel → List Sentinel → Bool
is_in s [] = false
is_in s (x ∷ xs) = index x == index s || is_in s xs

abbrev pub is : Fault → Sentinel → Bool
is e s = is_in s e.chain

pub data Category : Type 0 where
  no_category : Category
  cat_unauthenticated cat_forbidden cat_not_found cat_conflict : Category
  cat_busy cat_invalid cat_unimplemented cat_internal : Category

-- `Categorize` of an error that is not nil
unfoldable pub categorize_fault : Fault → Category
categorize_fault e =
    if is e unauthenticated
    then cat_unauthenticated
    else if is e ambiguous_credentials
    then cat_invalid
    else if is e invalid_request
    then cat_invalid
    else if is e forbidden
    then cat_forbidden
    else if is e not_found
    then cat_not_found
    else if is e conflict
    then cat_conflict
    else if is e busy
    then cat_busy
    else if is e not_implemented
    then cat_unimplemented
    else cat_internal

-- `Categorize`
unfoldable pub categorize : Option Fault → Category
categorize none = no_category
categorize (some e) = categorize_fault e

-- `mapLibError` of an error that is not nil
unfoldable pub map_lib_error : Fault → Fault
map_lib_error e =
    if is e lib_not_found
    then fault not_found
    else if is e lib_unsupported
    then fault not_implemented
    else if is e lib_query_time_operand
    then fault invalid_request
    else if is e lib_sequencer_genesis
    then fault busy
    else if is e lib_branch_not_creatable
        || (is e lib_unreadable_reference || is e lib_reserved_type)
    then fault forbidden
    else e

abbrev pub is_internal : Category → Bool
is_internal cat_internal = true
is_internal _ = false

-- `mapVerifyError`: both of its last returns wrap `ErrInvalidRequest`
unfoldable pub map_verify_error : Fault → Fault
map_verify_error e =
    let mapped = map_lib_error e in
    if is_internal (categorize_fault mapped) then fault invalid_request else mapped

-- `httpStatus`
unfoldable pub http_status : Category → ℕ
http_status cat_unauthenticated = 401
http_status cat_forbidden = 403
http_status cat_not_found = 404
http_status cat_conflict = 409
http_status cat_busy = 429
http_status cat_invalid = 400
http_status cat_unimplemented = 501
http_status _ = 500

-- the texts of the `Category` constants
unfoldable pub category_text : Category → Text
category_text no_category = []
category_text cat_unauthenticated = text "unauthenticated"
category_text cat_forbidden = text "forbidden"
category_text cat_not_found = text "not_found"
category_text cat_conflict = text "conflict"
category_text cat_busy = text "busy"
category_text cat_invalid = text "invalid"
category_text cat_unimplemented = text "unimplemented"
category_text cat_internal = text "internal"

-- the sentinels of package client
pub data ClientError : Type 0 where
  unauthenticated forbidden not_found conflict busy invalid unimplemented : ClientError

-- client `byCode`
unfoldable pub by_code : Text → Option ClientError
by_code s =
    if text_eq s (text "unauthenticated")
    then some ClientError.unauthenticated
    else if text_eq s (text "forbidden")
    then some ClientError.forbidden
    else if text_eq s (text "not_found")
    then some ClientError.not_found
    else if text_eq s (text "conflict")
    then some ClientError.conflict
    else if text_eq s (text "busy")
    then some ClientError.busy
    else if text_eq s (text "invalid")
    then some ClientError.invalid
    else if text_eq s (text "unimplemented")
    then some ClientError.unimplemented
    else none

-- client `byStatus`
unfoldable pub by_status : ℕ → Option ClientError
by_status n =
    if n == 401
    then some ClientError.unauthenticated
    else if n == 403
    then some ClientError.forbidden
    else if n == 404
    then some ClientError.not_found
    else if n == 409
    then some ClientError.conflict
    else if n == 429
    then some ClientError.busy
    else if n == 400
    then some ClientError.invalid
    else if n == 501
    then some ClientError.unimplemented
    else none

-- client `Error`, its message left out
pub record Refusal : Type 0 where
  pub status : ℕ
  pub code : Text

-- client `refusal`, given what the body decodes to as the `code` field, none if it does not decode
unfoldable pub refusal : ℕ → Option Text → Refusal
refusal status none = record { status = status; code = [] }
refusal status (some code) = record { status = status; code = code }

-- client `Error.Unwrap`
unfoldable pub unwrap : Refusal → Option ClientError
unwrap e = if text_eq e.code [] then by_status e.status else by_code e.code
