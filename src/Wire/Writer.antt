-- ===== src/Wire/Writer.antt =====
-- Go's `io.Writer` as an interface: what it makes of a run of bytes, with the contract that its
-- documentation states as laws; two writers that keep it; and the idiom
-- `written, err := …; n += written; if err != nil { return n, err }` of internal/core/serve.go.
use ranke_db.Base.{
  ◌≡◌, refl, ap, sym, ◌∙◌, ℕ, zero, suc, ◌+◌, ◌≤◌, Option, none, some, [], ◌∷◌, ◌++◌, Text, length,
  arith, length-append, ◌⊎◌, inl, inr,
}
use ranke_db.Errors.{Fault}
use mathlib.Core.Path.{ap₂}
use mathlib.Core.List.{append-nil, append_assoc}

-- the bytes that a call reports written, and its error
abbrev pub Count : Type 0
Count = ℕ × Option Fault

unfoldable pub take : ℕ → Text → Text
take zero s = []
take (suc n) [] = []
take (suc n) (c ∷ s) = c ∷ take n s

-- `io.Writer`: a write appends the bytes it reports; it reports all of them, or an error that the
-- writer can raise.
pub record Writer : Type 1 where
  pub State : Type 0
  pub Raises : Fault → Type 0
  pub sent : State → Text
  pub write : State → Text → Count × State
  pub write-sent : (s : State) (p : Text) → sent (write s p).1 ≡ sent s ++ take (write s p).0.0 p
  pub count-le : (s : State) (p : Text) → (write s p).0.0 ≤ length p
  pub write-ends :
      (s : State) (p : Text)
      → ((write s p).0 ≡ (length p, none)) ⊎ ((e : Fault) × ((write s p).0.1 ≡ some e) × Raises e)

pub take_all : (s : Text) → take (length s) s ≡ s
unfolding take
take_all [] = refl
take_all (c ∷ s) = ap (λ t. c ∷ t) (take_all s)

pub take_none : (s : Text) → take 0 s ≡ []
unfolding take
take_none s = refl

pub take-append_le : (n : ℕ) (s t : Text) → n ≤ length s → take n (s ++ t) ≡ take n s
unfolding take
take-append_le zero s t h = refl
take-append_le (suc n) [] t h = elim h [ ]
take-append_le (suc n) (c ∷ s) t h = ap (λ u. c ∷ u) (take-append_le n s t (omega (arith, h)))

pub take-append_add : (n : ℕ) (s t : Text) → take (length s + n) (s ++ t) ≡ s ++ take n t
unfolding take
take-append_add n [] t = ap (λ k. take k t) (omega arith)
take-append_add n (c ∷ s) t =
    let e : length (c ∷ s) + n ≡ suc (length s + n) = omega arith in
    ap (λ k. take k (c ∷ (s ++ t))) e ∙ ap (λ u. c ∷ u) (take-append_add n s t)

module _ (W : Writer) where
  open W use {State}

  abbrev pub Outcome : Type 0
  Outcome = Count × State

  -- `n += written` for what follows
  abbrev pub add : ℕ → Outcome → Outcome
  add n ((k, e), s) = ((n + k, e), s)

  -- a write, and if it had no error what comes after it
  abbrev pub chain : Outcome → (State → Outcome) → Outcome
  chain ((n, none), s) f = add n (f s)
  chain ((n, some e), s) f = ((n, some e), s)

  -- What a routine that means to write `t` and then to return `f` does: it has sent the bytes of `t`
  -- that it counts, and it got to the end or the writer stopped it.
  pub record Writes (s : State) (t : Text) (f : Option Fault) (o : Outcome) : Type 0 where
    pub sent : W.sent o.1 ≡ W.sent s ++ take o.0.0 t
    pub bound : o.0.0 ≤ length t
    pub ends : (o.0 ≡ (length t, f)) ⊎ ((e : Fault) × (o.0.1 ≡ some e) × W.Raises e)

  pub write-Writes : (s : State) (p : Text) → Writes s p none (W.write s p)
  write-Writes s p = record {
    sent = W.write-sent s p;
    bound = W.count-le s p;
    ends = W.write-ends s p;
  }

  -- a routine that writes nothing
  pub nothing-Writes : (s : State) (f : Option Fault) → Writes s [] f ((0, f), s)
  nothing-Writes s f = record {
    sent = sym (ap (λ u. W.sent s ++ u) (take_none []) ∙ append-nil (W.sent s));
    bound = omega arith;
    ends = inl refl;
  }

  module _ (s : State) (t u : Text) (f : Option Fault) (g : State → Outcome) where
    -- the writer stopped the first routine
    stopped_first :
        (n : ℕ) (e : Fault) (s' : State)
        → Writes s t none ((n, some e), s')
        → Writes s (t ++ u) f ((n, some e), s')
    stopped_first n e s' w = record {
      sent = w.sent ∙ ap (λ v. W.sent s ++ v) (sym (take-append_le n t u w.bound));
      bound = omega (arith, w.bound, length-append t u);
      ends = elim w.ends [ inl h ↦ cc | inr h ↦ inr h ];
    }

    whole_first :
        (n : ℕ) (s' : State)
        → n ≡ length t
        → W.sent s' ≡ W.sent s ++ take n t
        → Writes s' u f (g s')
        → Writes s (t ++ u) f (add n (g s'))
    whole_first n s' len at w = record {
      sent =
          w.sent
          ∙ ap (λ v. v ++ take (g s').0.0 u) at
          ∙ append_assoc (W.sent s) (take n t) (take (g s').0.0 u)
          ∙ ap (λ v. W.sent s ++ v)
              (ap (λ k. take k t ++ take (g s').0.0 u) len
                ∙ ap (λ v. v ++ take (g s').0.0 u) (take_all t)
                ∙ sym (take-append_add (g s').0.0 t u)
                ∙ ap (λ k. take (k + (g s').0.0) (t ++ u)) (sym len));
      bound = omega (arith, w.bound, len, length-append t u);
      ends = elim w.ends [
        | inl h ↦ inl (
            ap₂ (λ k e. (k, e)) (omega (arith, len, length-append t u, ap (λ c. c.0) h))
              (ap (λ c. c.1) h))
        | inr h ↦ inr h
      ];
    }

    pub chain-Writes :
        (o : Outcome)
        → Writes s t none o
        → ((s' : State) → Writes s' u f (g s'))
        → Writes s (t ++ u) f (chain o g)
    chain-Writes ((n, some e), s') w k = stopped_first n e s' w
    chain-Writes ((n, none), s') w k = elim w.ends [
      | inl h ↦ whole_first n s' (ap (λ c. c.0) h) w.sent (k s')
      | inr h ↦ cc
    ]

-- `bytes.Buffer` takes everything.
abbrev pub buffer : Writer
buffer = record {
  State = Text;
  Raises = λ e. ⊥;
  sent = λ s. s;
  write = λ s p. ((length p, none), s ++ p);
  write-sent = λ s p. ap (λ q. s ++ q) (sym (take_all p));
  count-le = λ s p. omega arith;
  write-ends = λ s p. inl refl;
}
