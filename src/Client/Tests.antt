-- ===== src/Client/Tests.antt =====
-- Windows at concrete inputs: a claim is its edges, and a text of one digit is a time.
use ranke_db.Base.{
  ℕ, ◌≡◌, refl, true, ◌&&◌, Option, none, some, List, [], ◌∷◌, Text, text, text_eq, ok, all, ◌==◌,
}
use ranke_db.Client.{
  Claims, Window, not_before, not_after, admits, is_earlier, parse_bound, key_bound, edge_bound,
  earlier_of, revocation_on, revocation_in, revocation, shorten, window_of,
}
use ranke_db.Client.Admission.{spares, admits-window_of}
use ranke_db.Base.{◌+◌, arith, false}
use ranke_db.Client.Ready.{Waiting, IsClock, unreached, exhausted, wait_ready, wait_ready-Ends}

abbrev digit_of : Text → Option ℕ
digit_of (c ∷ []) = some c
digit_of _ = none

-- an edge is the name it retires and its date
abbrev paper : Claims
paper = record {
  Claim = ℕ × List (ℕ × Text);
  Edge = ℕ × Text;
  Name = ℕ;
  id = λ c. c.0;
  edges = λ c. c.1;
  has_field = λ c key. text_eq key (text "until");
  field = λ c key. some (text "7");
  is_expiry = λ e. true;
  refers_to = λ e name. e.0 == name;
  edge_field = λ e key. some e.1;
  parse_time = digit_of;
  valid_from = text "from";
  expires_after = text "until";
}

abbrev carriers : List (ℕ × List (ℕ × Text))
carriers = (2, (1, text "5") ∷ (2, text "1") ∷ []) ∷ (3, (1, text "4") ∷ []) ∷ []

abbrev retired : Window
retired = record { from = none; until = some b'4'; revoked = true }

retired_early : window_of paper (1, []) carriers ≡ ok retired
unfolding window_of key_bound revocation revocation_in revocation_on edge_bound parse_bound
    earlier_of is_earlier shorten text_eq
retired_early = refl

admits-window_of_example :
    (from : Option ℕ) × (until : Option ℕ) × (key_bound paper (1, []) (text "from") ≡ ok from)
    × (key_bound paper (1, []) (text "until") ≡ ok until)
    × (admits retired b'4' ≡ (
        not_before from b'4'
        && (not_after until b'4' && all (λ c. all (spares paper 1 b'4') c.1) carriers)))
admits-window_of_example = admits-window_of paper (1, []) carriers retired b'4' retired_early

-- a stack that never comes up; its world is the time
abbrev never_up : Waiting
never_up = record {
  World = ℕ;
  now = λ w. w;
  poll = λ w. (unreached, w + 3);
  is_done = λ w. false;
  pause = λ w. (false, w + 50);
}

never_up-IsClock : IsClock never_up
never_up-IsClock = record { forward = λ w. omega arith; paused = λ w h. omega arith }

wait_ready-Ends_example : (wait_ready never_up 200 7).0 ≡ exhausted → ⊥
wait_ready-Ends_example = wait_ready-Ends never_up never_up-IsClock 200 7
