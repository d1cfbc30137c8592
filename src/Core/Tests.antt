-- ===== src/Core/Tests.antt =====
-- Requests at concrete inputs.
use ranke_db.Base.{
  ◌≡◌, refl, ◌⊎◌, ◌≤◌, List, [], ◌∷◌, text, text_eq, ok, if◌then◌else◌, ◌==◌, has_prefix,
}
use ranke_db.Base.Dict.{lookup}
use ranke_db.Access.Glob.{match_glob, match_branch}
use ranke_db.Access.Grant.{bit, allows}
use ranke_db.Access.Checker.{Principal, held, any_allows, all_allows, allow}
use ranke_db.Auth.{authenticate}
use ranke_db.Verification.{active}
use ranke_db.Core.Library.{Constraints}
use ranke_db.Core.Values.{
  claim_get, claim_contribute, verification_delete, right_of, Request, Exchange, bytes_stream,
  contribution_json,
}
use ranke_db.Core.Read
use ranke_db.Core.Pipeline
use ranke_db.Core.Contribute.{
  contribute, carry_out, effective, allow_all, readable_scopes, creatable_branches, creatable_of,
  lifted_types,
}
use ranke_db.Core.Execute.{handle, execute, dispatch, on_archive, answer}
use ranke_db.Core.Licence.{IsOffer, effective-IsOffer}
use ranke_db.Core.Effects.{Licence, Stops, contribute-cases}
use ranke_db.Core.Footprint.{Effect}
use ranke_db.Core.Authority.{IsEntitled, handle-IsEntitled}
use ranke_db.Core.Handling.{handle-Effect}
use ranke_db.Core.Serving.{Served, handle-Served}
use ranke_db.Core.Turns.{Turn, request_turn, turns, turns-active-le}
use ranke_db.Core.Samples.{merge_count, server, bob, bobs, get_main, asked, put_main, exchange}

bob_is_known : authenticate server.auth bob ≡ ok bobs
unfolding authenticate lookup text_eq
bob_is_known = refl

abbrev bob_seen : Exchange merge_count
bob_seen = record exchange { principal = bobs }

abbrev stranger : Request merge_count
stranger = record get_main { credential = record { scheme = text "basic"; token = [] } }

handle-Effect_example :
    Effect server put_main exchange claim_contribute (handle server put_main exchange).1
handle-Effect_example = handle-Effect server put_main exchange

served : (handle server get_main exchange).0 ≡ ok (bytes_stream 7)
unfolding handle Pipeline.authenticate Pipeline.authorize Pipeline.allow Pipeline.archive
    Pipeline.branch execute dispatch on_archive answer Read.claim Read.scoped_claim authenticate
    right_of allow held any_allows all_allows allows match_branch match_glob bit has_prefix lookup
    text_eq
served = refl

handle-IsEntitled_example :
    (p : Principal) × (authenticate server.auth get_main.credential ≡ ok p)
    × IsEntitled server get_main exchange p claim_get
handle-IsEntitled_example = handle-IsEntitled server get_main exchange (bytes_stream 7) served

handle-Served_example : Served server get_main 3 (bytes_stream 7)
handle-Served_example = handle-Served server get_main exchange (bytes_stream 7) refl served

abbrev allowed_bounds : Constraints
allowed_bounds = record {
  branches = text "main" ∷ [];
  referencable = text "main" ∷ [];
  lifted = [];
  creatable = [];
}

offered_bounds : (effective {R = merge_count} server 3 asked bob_seen).0 ≡ ok allowed_bounds
unfolding effective allow_all readable_scopes creatable_branches creatable_of lifted_types
    Pipeline.allow allow held any_allows all_allows allows match_branch match_glob bit has_prefix
    lookup text_eq
offered_bounds = refl

effective-IsOffer_example :
    (offered : Constraints) × IsOffer server bobs asked offered × (allowed_bounds ≡ offered)
effective-IsOffer_example =
    effective-IsOffer {R = merge_count} server 3 asked allowed_bounds bob_seen offered_bounds

contribute-cases_example :
    Stops server (contribute server put_main) bob_seen ⊎ Licence server put_main bob_seen
contribute-cases_example = contribute-cases server put_main bob_seen

carried :
    (carry_out {R = merge_count} allowed_bounds (text "main" ∷ []) asked bob_seen).0
    ≡ ok (contribution_json (4 ∷ []) ((5 ∷ []) ∷ (6 ∷ []) ∷ []))
unfolding carry_out
carried = refl

abbrev two_turns : List (Turn merge_count)
two_turns =
    request_turn (record get_main { op = verification_delete; ver_id = text "ver-1" }) 5
    ∷ request_turn put_main 6
    ∷ []

turns-active-le_example : active (turns server exchange two_turns).runs ≤ (if 1 == 0 then 1 else 1)
turns-active-le_example = turns-active-le server 1 two_turns exchange refl
