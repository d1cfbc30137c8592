-- ===== src/Rest/Answers.antt =====
-- adapters/endpoints/rest_http: how the calls of the router reach the core, and what they may answer.
use ranke_db.Base.{
  ◌≡◌, ◌⊎◌, refl, inl, inr, ℕ, Bool, true, ◌||◌, some, [], Text, text, ◌==◌, Bool-cases,
  Option-cases, Result-cases,
}
use ranke_db.Errors.{
  Fault, Category, categorize_fault, http_status, category_text, refusal, unwrap, cat_not_found,
  cat_invalid,
}
use ranke_db.Errors.Wire.{client_error, unwrap-refusal}
use ranke_db.Auth.{Credential}
use ranke_db.Core.Library.{Ranke}
use ranke_db.Core.Values.{
  Operation, claim_query, claim_get, claim_content, claim_contribute, branch_head, branch_info,
  branch_list, archive_info, layer_list, health_get, subject_get, verification_start,
  verification_list, verification_get, verification_cancel, verification_delete, dev_clock_advance,
  Request, Server, Exchange, Stream,
}
use ranke_db.Core.Execute.{handle}
use ranke_db.Wire.{Codec}
use ranke_db.Rest.{
  Call, query, contribute, list_branches, get_archive_info, health, whoami, list_storage_layers,
  get_branch_head, get_branch_info, get_branch_claim, get_branch_claim_content, get_archive_claim,
  get_archive_claim_content, get_claim, get_claim_content, start_verification, list_verifications,
  advance_dev_clock, get_verification, cancel_verification, delete_verification, HttpRequest,
  Response, Inputs, bytes, error_code, nothing,
}
use ranke_db.Rest.Respond.{
  write_error, fail, respond_bytes, respond, not_modified, respond_immutable, respond_revalidated,
  buffered, matches, strong_tag, weak_tag,
}
use ranke_db.Rest.Handlers.{finish, accepted, polled, by_id}
use ranke_db.Rest.{header}

-- the statuses of a success, by the operation that is asked for
abbrev pub is_success : Operation → ℕ → Bool
is_success claim_contribute n = n == 201
is_success verification_start n = n == 202
is_success verification_delete n = n == 204
is_success claim_get n = n == 200 || n == 304
is_success claim_content n = n == 200 || n == 304
is_success branch_head n = n == 200 || n == 304
is_success branch_info n = n == 200 || n == 304
is_success branch_list n = n == 200 || n == 304
is_success archive_info n = n == 200 || n == 304
is_success _ n = n == 200

-- an error on the wire: its status and code are those of the category, and the client reads the
-- category's own error from them
pub record IsError (cat : Category) (a : Response) : Type 0 where
  pub status : a.status ≡ http_status cat
  pub body : a.body ≡ error_code (category_text cat)
  pub read : unwrap (refusal a.status (some (category_text cat))) ≡ client_error cat

-- what a rendered stream is: a success of its operation without an error's body, or an error
pub data IsAnswer (op : Operation) (a : Response) : Type 0 where
  success :
      is_success op a.status ≡ true → ((code : Text) → a.body ≡ error_code code → ⊥) → IsAnswer op a
  refused : (cat : Category) → IsError cat a → IsAnswer op a

pub write_error-IsError : (cat : Category) → IsError cat (write_error cat)
unfolding write_error
write_error-IsError cat = record { status = refl; body = refl; read = (unwrap-refusal cat).0 }

pub fail-IsError : (e : Fault) → IsError (categorize_fault e) (fail e)
unfolding fail
fail-IsError e = write_error-IsError (categorize_fault e)

bytes-ne-code : (b code : Text) → bytes b ≡ error_code code → ⊥
bytes-ne-code b code h = cc

pub nothing-ne-code : (code : Text) → nothing ≡ error_code code → ⊥
nothing-ne-code code h = cc

module _ {R : Ranke} (C : Codec R) (I : Inputs R) where
  pub respond-IsAnswer :
      (op : Operation) (n : ℕ)
      → is_success op n ≡ true
      → (s : Stream R) → IsAnswer op (respond C [] s n)
  unfolding respond respond_bytes
  respond-IsAnswer op n h s = success h (bytes-ne-code (buffered C s).1)

  immutable-IsAnswer :
      (op : Operation) (r : HttpRequest R) (id : Text) (s : Stream R)
      → ((n : ℕ) → is_success op n ≡ (n == 200 || n == 304))
      → IsAnswer op (respond_immutable C r s id)
  unfolding respond_immutable respond respond_bytes not_modified
  immutable-IsAnswer op r id s k =
      elim (Bool-cases (matches (header r.headers (text "If-None-Match")) (strong_tag id))) [
        | inl e ↦ rw (e) (success (k 304) nothing-ne-code)
        | inr e ↦ rw (e) (success (k 200) (bytes-ne-code (buffered C s).1))
      ]

  pub revalidated-IsAnswer :
      (op : Operation) (r : HttpRequest R)
      → ((n : ℕ) → is_success op n ≡ (n == 200 || n == 304))
      → (s : Stream R) → IsAnswer op (respond_revalidated C I r s)
  unfolding respond_revalidated respond_bytes not_modified
  revalidated-IsAnswer op r k s = elim (Option-cases (buffered C s).0.1) [
    | inr (e, h) ↦ rw (h, respond_revalidated) (refused (categorize_fault e) (fail-IsError e))
    | inl h ↦
        let etag = weak_tag (I.digest (buffered C s).1) in
        elim (Bool-cases (matches (header r.headers (text "If-None-Match")) etag)) [
          | inl e ↦ rw (h, respond_revalidated) (rw (e) (success (k 304) nothing-ne-code))
          | inr e ↦
              rw (h, respond_revalidated)
                (rw (e) (success (k 200) (bytes-ne-code (buffered C s).1)))
        ]
  ]

  pub accepted-IsAnswer : (s : Stream R) → IsAnswer verification_start (accepted C I s)
  unfolding accepted respond_bytes
  accepted-IsAnswer s = elim (Option-cases (buffered C s).0.1) [
    | inr (e, h) ↦ rw (h, accepted) (refused (categorize_fault e) (fail-IsError e))
    | inl h ↦ rw (h, accepted) (success refl (bytes-ne-code (buffered C s).1))
  ]

  pub polled-IsAnswer : (s : Stream R) → IsAnswer verification_get (polled C I s)
  unfolding polled respond_bytes
  polled-IsAnswer s = elim (Option-cases (buffered C s).0.1) [
    | inr (e, h) ↦ rw (h, polled) (refused (categorize_fault e) (fail-IsError e))
    | inl h ↦ rw (h, polled) (success refl (bytes-ne-code (buffered C s).1))
  ]

-- the operation of a call
abbrev pub op_of : Call → Operation
op_of query = claim_query
op_of contribute = claim_contribute
op_of list_branches = branch_list
op_of (get_branch_head _) = branch_head
op_of (get_branch_info _) = branch_info
op_of get_archive_info = archive_info
op_of (get_branch_claim _ _) = claim_get
op_of (get_branch_claim_content _ _) = claim_content
op_of (get_archive_claim _) = claim_get
op_of (get_archive_claim_content _) = claim_content
op_of (get_claim _) = claim_get
op_of (get_claim_content _) = claim_content
op_of health = health_get
op_of whoami = subject_get
op_of list_storage_layers = layer_list
op_of start_verification = verification_start
op_of list_verifications = verification_list
op_of (get_verification _) = verification_get
op_of (cancel_verification _) = verification_cancel
op_of (delete_verification _) = verification_delete
op_of advance_dev_clock = dev_clock_advance

-- what a call is refused as without asking the core
abbrev pub IsEarly : Category → Type 0
IsEarly cat = (cat ≡ cat_invalid) ⊎ (cat ≡ cat_not_found)

module _ {R : Ranke} (C : Codec R) (I : Inputs R) (c : Server) (credential : Credential)
    (r : HttpRequest R) (x : Exchange R) where
  -- what a call of an operation does: it is refused before the core, or it makes one request of the
  -- core, with the credential, and renders its answer
  pub data Answers (op : Operation) : Response × Exchange R → Type 0 where
    before : (cat : Category) → IsEarly cat → Answers op (write_error cat, x)
    asked :
        (req : Request R) (render : Stream R → Response)
        → req.credential ≡ credential
        → req.op ≡ op
        → ((s : Stream R) → IsAnswer op (render s))
        → Answers op (finish render (handle c req x))

  pub by_id-Answers :
      (op : Operation) (scope id : Text)
      → ((n : ℕ) → is_success op n ≡ (n == 200 || n == 304))
      → Answers op (by_id C I c credential r op scope id x)
  unfolding by_id
  by_id-Answers op scope id k = elim (Result-cases (C.parse_id id)) [
    | inl (e, h) ↦ rw (h, by_id) (before cat_not_found (inr refl))
    | inr (i, h) ↦
        rw (h, by_id) (asked _ _ refl refl (λ s. immutable-IsAnswer C I op r (R.id_text i) s k))
  ]
