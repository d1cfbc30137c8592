-- ===== src/Wire/CborSequence.antt =====
-- client/seq.go: the items that a CBOR sequence is split into.
use ranke_db.Base.{
  ◌≡◌, refl, ap, ◌∙◌, inl, inr, ◌⊎◌, ℕ, zero, suc, ◌<◌, Option, none, List, [], ◌∷◌, ◌++◌, Text,
  length, All, Result, ok, err, ◌>>=◌, arith, length-append,
}
use mathlib.Core.List.{append-nil}
use ranke_db.Errors.{Fault}
use ranke_db.Core.Library.{Ranke}
use ranke_db.Wire.{result_cbor, Step, ended, read_item, failed, Codec}
use ranke_db.Wire.Serve.{framing_for}
use ranke_db.Wire.Body.{path_text}
use ranke_db.Wire.Split.{ReadError, failure, split_items, split_cbor_seq}

-- to split on a computed step and keep the equation
pub Step-cases :
    (s : Step)
    → (s ≡ ended) ⊎ ((e : Fault) × (s ≡ failed e)) ⊎ ((p : Text) × (t : Text) × (s ≡ read_item p t))
Step-cases ended = inl refl
Step-cases (failed e) = inr (inl (e, refl))
Step-cases (read_item p t) = inr (inr (p, t, refl))

module _ {R : Ranke} (C : Codec R) where
  -- The decoder takes at least a byte for an item.
  abbrev pub Consumes : Type 0
  Consumes =
      (s : Text) (f : Option Fault) (p t : Text)
      → C.next_item s f ≡ read_item p t
      → length t < length s

  -- bytes that the decoder takes as one item, whatever follows them
  pub record IsItem (p : Text) : Type 0 where
    pub whole : (t : Text) → C.next_item (p ++ t) none ≡ read_item p t
    pub nonempty : 0 < length p

  -- The loop of `splitCBORSeq` as its rounds: from the bytes that are left to what is answered, where
  -- every round takes an item or ends the loop. A loop that does not end has no such sequence.
  pub data Rounds (f : Option Fault) : Text → Result ReadError (List Text) → Type 0 where
    stops : {s : Text} → C.next_item s f ≡ ended → Rounds f s (ok [])
    fails : {s : Text} {e : Fault} → C.next_item s f ≡ failed e → Rounds f s (err (failure e))
    takes :
        {s p t : Text} {o : Result ReadError (List Text)}
        → C.next_item s f ≡ read_item p t
        → Rounds f t o
        → Rounds f s (o >>= (λ records. ok (p ∷ records)))

  split_items-Rounds :
      Consumes
      → (f : Option Fault) (n : ℕ) (s : Text) → length s < n
      → Rounds f s (split_items C n f s)
  unfolding split_items
  split_items-Rounds c f zero s h = elim h [ ]
  split_items-Rounds c f (suc n) s h = elim (Step-cases (C.next_item s f)) [
    | inl e ↦ rw (e, split_items) (stops e)
    | inr (inl (x, e)) ↦ rw (e, split_items) (fails e)
    | inr (inr (p, t, e)) ↦
        rw (e, split_items) (takes e (split_items-Rounds c f n t (omega (arith, h, c s f p t e))))
  ]

  -- Where the decoder takes at least a byte for an item, the loop of `splitCBORSeq` comes to an end on
  -- every body: there is a finite sequence of rounds, each with what the one before left, from the body
  -- to the answer, which are the items in their order, or the decoder's error.
  pub split_cbor_seq-Rounds :
      Consumes → (s : Text) (f : Option Fault) → Rounds f s (split_cbor_seq C s f)
  unfolding split_cbor_seq
  split_cbor_seq-Rounds c s f = split_items-Rounds c f (suc (length s)) s (omega arith)

  split_items-path_text :
      C.next_item [] none ≡ ended
      → (n : ℕ) (ps : List Text) → length (path_text (framing_for result_cbor) ps) < n
      → All IsItem ps
      → split_items C n none (path_text (framing_for result_cbor) ps) ≡ ok ps
  unfolding split_items framing_for
  split_items-path_text z zero ps h r = elim h [ ]
  split_items-path_text z (suc n) [] h r = rw (z, split_items) refl
  split_items-path_text z (suc n) (p ∷ ps) h r =
      let t = path_text (framing_for result_cbor) ps in
      let e : (p ++ []) ++ t ≡ p ++ t = ap (λ u. u ++ t) (append-nil p) in
      let less : length t < n = omega (arith, h, ap length e, length-append p t, r.0.nonempty) in
      ap (split_items C (suc n) none) e
      ∙ rw (r.0.whole t, split_items)
          (ap (λ o. o >>= (λ records. ok (p ∷ records))) (split_items-path_text z n ps less r.1))

  -- The items that a CBOR sequence was written from are what it is split into.
  pub split_cbor_seq-path_text :
      C.next_item [] none ≡ ended
      → (ps : List Text) → All IsItem ps
      → split_cbor_seq C (path_text (framing_for result_cbor) ps) none ≡ ok ps
  unfolding split_cbor_seq
  split_cbor_seq-path_text z ps r =
      let s = path_text (framing_for result_cbor) ps in
      split_items-path_text z (suc (length s)) ps (omega arith) r
