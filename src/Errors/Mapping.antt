-- ===== src/Errors/Mapping.antt =====
-- What the mappings of errors promise.
use ranke_db.Base.{◌≡◌, ◌≢◌, refl, Bool, true, false, List, [], ◌∷◌, arith, leb, if◌then◌else◌, All}
use ranke_db.Errors.{
  Sentinel, lib_not_found, lib_unsupported, lib_query_time_operand, lib_sequencer_genesis,
  lib_branch_not_creatable, lib_unreadable_reference, lib_reserved_type, Fault, fault, is_in, is,
  Category, cat_invalid, cat_forbidden, cat_not_found, cat_busy, cat_unimplemented, cat_internal,
  categorize_fault, map_lib_error, map_verify_error, index,
}

-- Mapping an error twice is mapping it once, which the content arm relies on: its branch error comes
-- to it mapped.
pub map_lib_error_idem : (e : Fault) → map_lib_error (map_lib_error e) ≡ map_lib_error e
unfolding map_lib_error is_in
map_lib_error_idem e = ground arith

invalid_not_internal : categorize_fault (fault Sentinel.invalid_request) ≡ cat_invalid
unfolding categorize_fault is_in
invalid_not_internal = refl

-- A failure of verification is never an internal one.
pub map_verify_error-ne-internal :
    (e : Fault) → categorize_fault (map_verify_error e) ≢ cat_internal
unfolding map_verify_error
map_verify_error-ne-internal e = ground (arith, invalid_not_internal)

-- the library's own sentinels
abbrev pub is_library : Sentinel → Bool
is_library s = leb 8 (index s)

-- an error of the library, which wraps none of the server's sentinels
abbrev pub FromLibrary : Fault → Type 0
FromLibrary e = All (λ s. is_library s ≡ true) e.chain

not_in_library :
    (s : Sentinel) (xs : List Sentinel)
    → is_library s ≡ false
    → All (λ x. is_library x ≡ true) xs
    → is_in s xs ≡ false
unfolding is_in
not_in_library s [] h a = refl
not_in_library s (x ∷ xs) h a = ground (arith, not_in_library s xs h a.1)

-- The category of a library error after its mapping, by the first sentinel that it holds in the
-- order: not found, unsupported, a wrong time operand, no genesis yet, a refused constraint.
pub library_category : Fault → Category
library_category e =
    if is e lib_not_found
    then cat_not_found
    else if is e lib_unsupported
    then cat_unimplemented
    else if is e lib_query_time_operand
    then cat_invalid
    else if is e lib_sequencer_genesis
    then cat_busy
    else if is e lib_branch_not_creatable
    then cat_forbidden
    else if is e lib_unreadable_reference
    then cat_forbidden
    else if is e lib_reserved_type
    then cat_forbidden
    else cat_internal

-- An error of the library that holds none of the server's sentinels gets its category from the
-- first of these that it holds: not found, unsupported (unimplemented), a wrong time operand
-- (invalid), no genesis (busy), a branch not creatable, a reference not readable or a reserved type
-- (forbidden); with none of them it is internal. It is never a conflict or unauthenticated.
pub categorize-map_lib_error :
    (e : Fault) → FromLibrary e → categorize_fault (map_lib_error e) ≡ library_category e
unfolding map_lib_error categorize_fault library_category is_in
categorize-map_lib_error e h = ground (
  arith,
  not_in_library Sentinel.unauthenticated e.chain refl h,
  not_in_library Sentinel.ambiguous_credentials e.chain refl h,
  not_in_library Sentinel.invalid_request e.chain refl h,
  not_in_library Sentinel.forbidden e.chain refl h,
  not_in_library Sentinel.not_found e.chain refl h,
  not_in_library Sentinel.conflict e.chain refl h,
  not_in_library Sentinel.busy e.chain refl h,
  not_in_library Sentinel.not_implemented e.chain refl h,
)
