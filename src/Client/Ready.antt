-- ===== src/Client/Ready.antt =====
-- client/read.go: WaitReady, which polls a stack that is coming up. The polls, the clock and the
-- context are a parameter; a time is a number of milliseconds.
use ranke_db.Base.{
  ◌≡◌, inl, inr, ℕ, zero, suc, ◌+◌, ◌≤◌, ◌<◌, Bool, true, false, not, ◌&&◌, Option, some, ltb,
  if◌then◌else◌, arith, Bool-cases,
}
use ranke_db.Errors.{ClientError, Refusal, unwrap}

-- how a poll of `Health` ends
pub data Poll : Type 0 where
  up : Poll
  turned_away : Refusal → Poll
  unreached : Poll

pub record Waiting : Type 1 where
  pub World : Type 0
  pub now : World → ℕ
  pub poll : World → Poll × World
  -- whether the context is done, and the `select` on it and on a timer: whether it was the context
  pub is_done : World → Bool
  pub pause : World → Bool × World

-- `readyGap`
abbrev pub ready_gap : ℕ
ready_gap = 50

abbrev pub is_busy : Option ClientError → Bool
is_busy (some ClientError.busy) = true
is_busy _ = false

-- `settled`
unfoldable pub settled : Refusal → Bool
unfolding unwrap
settled e = not (is_busy (unwrap e)) && ltb e.status 500

-- how the wait ends; the last is for the rounds that run out
pub data Waited : Type 0 where
  ready cancelled timed_out exhausted : Waited
  refused : Refusal → Waited

module _ (W : Waiting) where
  open W use {World}

  -- the body of the loop after a poll that did not settle it, given the rest of the loop
  abbrev pub next_round : (World → Waited × World) → ℕ → World → Waited × World
  next_round rest deadline w =
      if W.is_done w
      then (cancelled, w)
      else if not (ltb (W.now w + ready_gap) deadline)
      then (timed_out, w)
      else elim (W.pause w).0 [ true ↦ (cancelled, (W.pause w).1) | false ↦ rest (W.pause w).1 ]

  abbrev pub after_poll : (World → Waited × World) → ℕ → Poll × World → Waited × World
  after_poll rest deadline (up, w) = (ready, w)
  after_poll rest deadline (unreached, w) = next_round rest deadline w
  after_poll rest deadline (turned_away e, w) =
      if settled e then (refused e, w) else next_round rest deadline w

  -- the loop of `WaitReady`, a round for each unit of fuel
  unfoldable pub rounds : ℕ → ℕ → World → Waited × World
  rounds zero deadline w = (exhausted, w)
  rounds (suc n) deadline w = after_poll (rounds n deadline) deadline (W.poll w)

  -- `WaitReady`: a round pauses for a gap, so a round for each millisecond is more than enough
  unfoldable pub wait_ready : ℕ → World → Waited × World
  unfolding rounds
  wait_ready within w = rounds (suc within) (W.now w + within) w

  -- A clock that a poll does not turn back and that a whole pause moves by its gap.
  pub record IsClock : Type 0 where
    pub forward : (w : World) → W.now w ≤ W.now (W.poll w).1
    pub paused : (w : World) → (W.pause w).0 ≡ false → W.now w + ready_gap ≤ W.now (W.pause w).1

  -- an end that the code has
  abbrev pub Ends : Waited × World → Type 0
  Ends o = o.0 ≡ exhausted → ⊥

  next_round-Ends :
      IsClock
      → (rest : World → Waited × World) (deadline : ℕ) (w : World)
      → ((v : World)
          → W.now w + ready_gap < deadline
          → W.now w + ready_gap ≤ W.now v
          → Ends (rest v))
      → Ends (next_round rest deadline w)
  next_round-Ends clock rest deadline w k = elim (Bool-cases (W.is_done w)) [
    | inl e ↦ rw (e) (λ h. cc)
    | inr e ↦ elim (Bool-cases (ltb (W.now w + ready_gap) deadline)) [
      | inr f ↦ rw (e) (rw (f) (λ h. cc))
      | inl f ↦ elim (Bool-cases (W.pause w).0) [
        | inl g ↦ rw (e) (rw (f) (rw (g) (λ h. cc)))
        | inr g ↦ rw (e) (rw (f) (rw (g) (k (W.pause w).1 (ground arith) (clock.paused w g))))
      ]
    ]
  ]

  after_poll-Ends :
      (rest : World → Waited × World) (deadline : ℕ) (o : Poll × World)
      → Ends (next_round rest deadline o.1)
      → Ends (after_poll rest deadline o)
  after_poll-Ends rest deadline (up, w) k = λ h. cc
  after_poll-Ends rest deadline (unreached, w) k = k
  after_poll-Ends rest deadline (turned_away e, w) k = elim (Bool-cases (settled e)) [
    | inl s ↦ rw (s) (λ h. cc)
    | inr s ↦ rw (s) k
  ]

  rounds-Ends :
      IsClock
      → (n deadline : ℕ) (w : World) → 1 ≤ n
      → deadline < W.now w + n
      → Ends (rounds n deadline w)
  unfolding rounds
  rounds-Ends clock zero deadline w some_left h = elim some_left [ ]
  rounds-Ends clock (suc n) deadline w some_left h =
      after_poll-Ends (rounds n deadline) deadline (W.poll w) (
        next_round-Ends clock (rounds n deadline) deadline (W.poll w).1 (λ v late moved.
          rounds-Ends clock n deadline v (omega (arith, h, late, clock.forward w))
            (omega (arith, h, late, moved, clock.forward w))))

  -- `WaitReady` comes to an end of its own, up, refused, cancelled or timed out, within a round for
  -- each millisecond of its window and one more: where a poll does not turn the clock back and a whole
  -- pause moves it by the gap.
  pub wait_ready-Ends : IsClock → (within : ℕ) (w : World) → Ends (wait_ready within w)
  unfolding wait_ready
  wait_ready-Ends clock within w =
      rounds-Ends clock (suc within) (W.now w + within) w (omega arith) (omega arith)
