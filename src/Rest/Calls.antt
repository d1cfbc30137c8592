-- ===== src/Rest/Calls.antt =====
-- adapters/endpoints/rest_http: every call of the router, by what it asks of the core.
use ranke_db.Base.{refl, inl, inr, Result-cases}
use ranke_db.Errors.{cat_invalid}
use ranke_db.Access.Grant.{universe, archive}
use ranke_db.Auth.{Credential}
use ranke_db.Core.Library.{Ranke}
use ranke_db.Core.Values.{
  claim_query, claim_get, claim_content, verification_start, dev_clock_advance, Server, Exchange,
}
use ranke_db.Wire.{Codec}
use ranke_db.Rest.{
  Call, query, contribute, list_branches, get_archive_info, health, whoami, list_storage_layers,
  get_branch_head, get_branch_info, get_branch_claim, get_branch_claim_content, get_archive_claim,
  get_archive_claim_content, get_claim, get_claim_content, start_verification, list_verifications,
  advance_dev_clock, get_verification, cancel_verification, delete_verification, HttpRequest,
  Inputs,
}
use ranke_db.Rest.Handlers.{serve_query, serve_start, serve_clock, serve_call}
use ranke_db.Rest.Answers.{
  success, op_of, Answers, before, asked, by_id-Answers, respond-IsAnswer, revalidated-IsAnswer,
  accepted-IsAnswer, polled-IsAnswer, nothing-ne-code,
}

module _ {R : Ranke} (C : Codec R) (I : Inputs R) (c : Server) (credential : Credential)
    (r : HttpRequest R) (x : Exchange R) where
  query-Answers : Answers C I c credential r x claim_query (serve_query C I c credential r x)
  unfolding serve_query
  query-Answers = elim (Result-cases (I.read_all r.body)) [
    | inl (e, h) ↦ rw (h, serve_query) (before cat_invalid (inl refl))
    | inr (body, h) ↦ elim (Result-cases (I.decode_query body)) [
      | inl (e, g) ↦ rw (h, serve_query) (rw (g) (before cat_invalid (inl refl)))
      | inr (rq, g) ↦
          rw (h, serve_query) (rw (g) (asked _ _ refl refl (respond-IsAnswer C I _ 200 refl)))
    ]
  ]

  start-Answers : Answers C I c credential r x verification_start (serve_start C I c credential r x)
  unfolding serve_start
  start-Answers = elim (Result-cases (I.decode_config r.body)) [
    | inl (e, h) ↦ rw (h, serve_start) (before cat_invalid (inl refl))
    | inr (cfg, h) ↦ rw (h, serve_start) (asked _ _ refl refl (accepted-IsAnswer C I))
  ]

  clock-Answers : Answers C I c credential r x dev_clock_advance (serve_clock C I c credential r x)
  unfolding serve_clock
  clock-Answers = elim (Result-cases (I.decode_time r.body)) [
    | inl (e, h) ↦ rw (h, serve_clock) (before cat_invalid (inl refl))
    | inr (at, h) ↦ rw (h, serve_clock) (asked _ _ refl refl (respond-IsAnswer C I _ 200 refl))
  ]

  pub serve_call-Answers :
      (k : Call) → Answers C I c credential r x (op_of k) (serve_call C I c credential r k x)
  unfolding serve_call
  serve_call-Answers query = query-Answers
  serve_call-Answers contribute = asked _ _ refl refl (respond-IsAnswer C I _ 201 refl)
  serve_call-Answers list_branches = asked _ _ refl refl (revalidated-IsAnswer C I _ r (λ n. refl))
  serve_call-Answers (get_branch_head b) =
      asked _ _ refl refl (revalidated-IsAnswer C I _ r (λ n. refl))
  serve_call-Answers (get_branch_info b) =
      asked _ _ refl refl (revalidated-IsAnswer C I _ r (λ n. refl))
  serve_call-Answers get_archive_info =
      asked _ _ refl refl (revalidated-IsAnswer C I _ r (λ n. refl))
  serve_call-Answers (get_branch_claim b i) =
      by_id-Answers C I c credential r x claim_get b i (λ n. refl)
  serve_call-Answers (get_branch_claim_content b i) =
      by_id-Answers C I c credential r x claim_content b i (λ n. refl)
  serve_call-Answers (get_archive_claim i) =
      by_id-Answers C I c credential r x claim_get archive i (λ n. refl)
  serve_call-Answers (get_archive_claim_content i) =
      by_id-Answers C I c credential r x claim_content archive i (λ n. refl)
  serve_call-Answers (get_claim i) =
      by_id-Answers C I c credential r x claim_get universe i (λ n. refl)
  serve_call-Answers (get_claim_content i) =
      by_id-Answers C I c credential r x claim_content universe i (λ n. refl)
  serve_call-Answers health = asked _ _ refl refl (respond-IsAnswer C I _ 200 refl)
  serve_call-Answers whoami = asked _ _ refl refl (respond-IsAnswer C I _ 200 refl)
  serve_call-Answers list_storage_layers = asked _ _ refl refl (respond-IsAnswer C I _ 200 refl)
  serve_call-Answers start_verification = start-Answers
  serve_call-Answers list_verifications = asked _ _ refl refl (respond-IsAnswer C I _ 200 refl)
  serve_call-Answers (get_verification i) = asked _ _ refl refl (polled-IsAnswer C I)
  serve_call-Answers (cancel_verification i) = asked _ _ refl refl (respond-IsAnswer C I _ 200 refl)
  serve_call-Answers (delete_verification i) =
      asked _ _ refl refl (λ s. success refl nothing-ne-code)
  serve_call-Answers advance_dev_clock = clock-Answers
