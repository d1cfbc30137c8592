-- ===== src/Wire/JsonSequence.antt =====
-- client/seq.go: the records that a JSON text sequence is split into.
use ranke_db.Base.{
  ◌≡◌, refl, ap, ◌∙◌, inl, inr, ℕ, zero, suc, ◌≤◌, ◌<◌, Bool, true, false, not, ◌&&◌, Option, none,
  some, List, [], ◌∷◌, ◌++◌, Text, glue, split_on, drop_empty, length, all, All, map, leb, ◌==◌, ok,
  arith, Option-cases, &&-split,
}
use mathlib.Core.List.{reverse, reverse-reverse, reverse-append, append_assoc}
use ranke_db.Wire.{record_separator, result_json}
use ranke_db.Wire.Serve.{framing_for}
use ranke_db.Wire.Body.{path_text}
use ranke_db.Wire.Split.{strip, cut_first, cut_last, trim_space, chunks, split_json_seq}

-- A loop that cuts a text shorter until it cannot has stopped after as many rounds as it has bytes.
pub strip_fixed :
    (cut : Text → Option Text)
    → ((s r : Text) → cut s ≡ some r → length r < length s)
    → (n : ℕ) (s : Text) → length s ≤ n
    → cut (strip cut n s) ≡ none
unfolding strip
strip_fixed cut shorter zero s h = elim (Option-cases (cut s)) [
  | inl e ↦ e
  | inr (r, e) ↦ let absurd : length r < 0 = omega (arith, h, shorter s r e) in elim absurd [ ]
]
strip_fixed cut shorter (suc n) s h = elim (Option-cases (cut s)) [
  | inl e ↦ rw (e, strip) e
  | inr (r, e) ↦ rw (e, strip) (strip_fixed cut shorter n r (omega (arith, h, shorter s r e)))
]

pub cut_first_shorter : (s r : Text) → cut_first s ≡ some r → length r < length s
unfolding cut_first
cut_first_shorter [] r h = cc
cut_first_shorter (c ∷ []) r h = ground arith
cut_first_shorter (c ∷ d ∷ []) r h = ground arith
cut_first_shorter (c ∷ d ∷ e ∷ s) r h = ground arith

pub cut_last_shorter : (s r : Text) → cut_last s ≡ some r → length r < length s
unfolding cut_last
cut_last_shorter [] r h = cc
cut_last_shorter (c ∷ []) r h = ground arith
cut_last_shorter (c ∷ d ∷ []) r h = ground arith
cut_last_shorter (c ∷ d ∷ e ∷ s) r h = ground arith

-- begins with a printing character of ASCII
abbrev pub prints : Text → Bool
prints [] = false
prints (c ∷ s) = leb 0x21 c && leb c 0x7e

-- what a record of a JSON text sequence may be: no separator in it, no white space around it
pub record IsRecord (p : Text) : Type 0 where
  pub unseparated : all (λ c. not (c == record_separator)) p ≡ true
  pub first : prints p ≡ true
  pub last : prints (reverse p) ≡ true

pub cut_first-prints : (s : Text) → prints s ≡ true → cut_first s ≡ none
unfolding cut_first
cut_first-prints [] h = cc
cut_first-prints (c ∷ []) h = ground arith
cut_first-prints (c ∷ d ∷ []) h = ground arith
cut_first-prints (c ∷ d ∷ e ∷ s) h = ground arith

pub cut_last-prints : (s : Text) → prints s ≡ true → cut_last s ≡ none
unfolding cut_last
cut_last-prints [] h = cc
cut_last-prints (c ∷ []) h = ground arith
cut_last-prints (c ∷ d ∷ []) h = ground arith
cut_last-prints (c ∷ d ∷ e ∷ s) h = ground arith

strip_uncut : (cut : Text → Option Text) (n : ℕ) (s : Text) → cut s ≡ none → strip cut n s ≡ s
unfolding strip
strip_uncut cut zero s h = refl
strip_uncut cut (suc n) s h = rw (h, strip) refl

pub prints-append : (s t : Text) → prints s ≡ true → prints (s ++ t) ≡ true
prints-append [] t h = cc
prints-append (c ∷ s) t h = h

-- the line feed that ends a record goes
trim_space_line : (p : Text) → IsRecord p → trim_space (p ++ (10 ∷ [])) ≡ p
unfolding trim_space strip cut_last
trim_space_line p r =
    let t = p ++ (10 ∷ []) in
    let begins : strip cut_first (length t) t ≡ t =
      strip_uncut cut_first (length t) t (cut_first-prints t (prints-append p (10 ∷ []) r.first)) in
    let ends : strip cut_last (length (reverse t)) (reverse t) ≡ reverse p =
      ap (λ u. strip cut_last (length u) u) (reverse-append p (10 ∷ []))
      ∙ strip_uncut cut_last (length (reverse p)) (reverse p)
          (cut_last-prints (reverse p) r.last) in
    ap (λ u. reverse (strip cut_last (length (reverse u)) (reverse u))) begins
    ∙ ap reverse ends
    ∙ reverse-reverse p

chunks-append :
    (p t f : Text) (fs : List Text)
    → all (λ c. not (c == record_separator)) p ≡ true
    → chunks t ≡ f ∷ fs
    → chunks (p ++ t) ≡ (p ++ f) ∷ fs
unfolding split_on
chunks-append [] t f fs u h = h
chunks-append (c ∷ p) t f fs u h =
    let both =
      &&-split (not (c == record_separator)) (all (λ c. not (c == record_separator)) p) u in
    let rest = ap (glue c) (chunks-append p t f fs both.1 h) in ground (arith, rest, both.0)

abbrev lines : List Text → List Text
lines = map (λ p. p ++ (10 ∷ []))

chunks-path_text :
    (ps : List Text)
    → All IsRecord ps
    → chunks (path_text (framing_for result_json) ps) ≡ [] ∷ lines ps
unfolding split_on framing_for
chunks-path_text [] r = refl
chunks-path_text (p ∷ ps) r =
    let t = path_text (framing_for result_json) ps in
    ap (λ u. [] ∷ u)
      (ap chunks (append_assoc p (10 ∷ []) t)
        ∙ chunks-append p (10 ∷ t) (10 ∷ []) (lines ps) r.0.unseparated
            (ap (glue 10) (chunks-path_text ps r.1)))

drop_empty_records :
    (ps : List Text) → All IsRecord ps → drop_empty (map trim_space (lines ps)) ≡ ps
drop_empty_records [] r = refl
drop_empty_records ([] ∷ ps) r = let h = r.0.first in cc
drop_empty_records ((c ∷ p) ∷ ps) r =
    ap (λ u. drop_empty (u ∷ map trim_space (lines ps))) (trim_space_line (c ∷ p) r.0)
    ∙ ap (λ u. (c ∷ p) ∷ u) (drop_empty_records ps r.1)

-- The records that a JSON text sequence was written from are what it is split into.
pub split_json_seq-path_text :
    (ps : List Text)
    → All IsRecord ps
    → split_json_seq (path_text (framing_for result_json) ps) none ≡ ok ps
unfolding split_json_seq trim_space strip cut_first cut_last
split_json_seq-path_text ps r =
    ap (λ cs. ok (drop_empty (map trim_space cs))) (chunks-path_text ps r)
    ∙ ap ok (drop_empty_records ps r)
