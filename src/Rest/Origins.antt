-- ===== src/Rest/Origins.antt =====
-- adapters/endpoints/rest_http/cors.go: the origins that a configuration declares, as they are
-- written, and those that they admit.
use ranke_db.Base.{
  ◌≡◌, refl, ap, ◌∙◌, ℕ, zero, suc, ◌≤◌, Bool, true, false, ◌||◌, Option, none, some, List, [], ◌∷◌,
  ◌++◌, Text, text, text_eq, any, all, All, all-reverse, map, length, length-append, trim_right,
  ◌==◌, &&-split, arith,
}
use mathlib.Core.List.{reverse, reverse-reverse, reverse-append}
use ranke_db.Wire.Split.{is_ascii_space, strip, cut_first, cut_last, trim_space}
use ranke_db.Wire.JsonSequence.{prints, prints-append, cut_first-prints, cut_last-prints}
use ranke_db.Rest.Cors.{CorsPolicy, add_origins, trimmed, allows}
use ranke_db.Rest.Browsers.{entry_admits, allows-add_origins}

abbrev pub is_slash : ℕ → Bool
is_slash c = c == b'/'

unfoldable pub ends_in_slash : Text → Bool
ends_in_slash [] = false
ends_in_slash (c ∷ []) = is_slash c
ends_in_slash (c ∷ d ∷ s) = ends_in_slash (d ∷ s)

trim_right-slashes : (s : Text) → all is_slash s ≡ true → trim_right b'/' s ≡ []
unfolding trim_right text_eq
trim_right-slashes [] h = refl
trim_right-slashes (c ∷ s) h =
    let both = &&-split (is_slash c) (all is_slash s) h in
    rw (both.0) (rw (trim_right-slashes s both.1) refl)

trim_right-append :
    (s t : Text) → ends_in_slash s ≡ false → all is_slash t ≡ true → trim_right b'/' (s ++ t) ≡ s
unfolding trim_right ends_in_slash text_eq
trim_right-append [] t e h = trim_right-slashes t h
trim_right-append (c ∷ []) t e h = rw (trim_right-slashes t h) (ground (arith, e))
trim_right-append (c ∷ d ∷ s) t e h = rw (trim_right-append (d ∷ s) t e h) (ground arith)

strip_spaces :
    (cut : Text → Option Text)
    → ((c : ℕ) (u : Text) → is_ascii_space c ≡ true → cut (c ∷ u) ≡ some u)
    → (n : ℕ) (w s : Text) → length w ≤ n
    → all is_ascii_space w ≡ true
    → cut s ≡ none
    → strip cut n (w ++ s) ≡ s
unfolding strip
strip_spaces cut k zero [] s b h e = refl
strip_spaces cut k zero (c ∷ w) s b h e = elim b [ ]
strip_spaces cut k (suc n) [] s b h e = rw (e, strip) refl
strip_spaces cut k (suc n) (c ∷ w) s b h e =
    let both = &&-split (is_ascii_space c) (all is_ascii_space w) h in
    rw (k c (w ++ s) both.0, strip) (strip_spaces cut k n w s (omega (arith, b)) both.1 e)

first_space : (c : ℕ) (u : Text) → is_ascii_space c ≡ true → cut_first (c ∷ u) ≡ some u
unfolding cut_first
first_space c u h = rw (h) refl

last_space : (c : ℕ) (u : Text) → is_ascii_space c ≡ true → cut_last (c ∷ u) ≡ some u
unfolding cut_last
last_space c u h = rw (h) refl

trim_space-written :
    (w s v : Text)
    → all is_ascii_space w ≡ true
    → all is_ascii_space v ≡ true
    → prints s ≡ true
    → prints (reverse s) ≡ true
    → trim_space (w ++ (s ++ v)) ≡ s
unfolding trim_space
trim_space-written w s v hw hv hs hr =
    let t = w ++ (s ++ v) in
    let begins : strip cut_first (length t) t ≡ s ++ v =
      strip_spaces cut_first first_space (length t) w (s ++ v)
        (omega (arith, length-append w (s ++ v))) hw
        (cut_first-prints (s ++ v) (prints-append s v hs)) in
    let u = reverse v ++ reverse s in
    let ends : strip cut_last (length u) u ≡ reverse s =
      strip_spaces cut_last last_space (length u) (reverse v) (reverse s)
        (omega (arith, length-append (reverse v) (reverse s))) (all-reverse is_ascii_space v ∙ hv)
        (cut_last-prints (reverse s) hr) in
    ap (λ z. reverse (strip cut_last (length (reverse z)) (reverse z))) begins
    ∙ ap (λ z. reverse (strip cut_last (length z) z)) (reverse-append s v)
    ∙ ap reverse ends
    ∙ reverse-reverse s

prints-slashes : (t s : Text) → all is_slash t ≡ true → prints s ≡ true → prints (t ++ s) ≡ true
prints-slashes [] s h p = p
prints-slashes (c ∷ t) s h p = ground (arith, h)

-- an entry of `allowedOrigins`: an origin, with slashes at its end and white space around them
pub record Entry : Type 0 where
  pub before : Text
  pub origin : Text
  pub slashes : Text
  pub after : Text

abbrev pub written : Entry → Text
written e = e.before ++ ((e.origin ++ e.slashes) ++ e.after)

pub record IsEntry (e : Entry) : Type 0 where
  pub before : all is_ascii_space e.before ≡ true
  pub slashes : all is_slash e.slashes ≡ true
  pub after : all is_ascii_space e.after ≡ true
  pub first : prints e.origin ≡ true
  pub last : prints (reverse e.origin) ≡ true
  pub unslashed : ends_in_slash e.origin ≡ false

trimmed-written : (e : Entry) → IsEntry e → trimmed (written e) ≡ e.origin
unfolding trimmed
trimmed-written e k =
    let ends : prints (reverse (e.origin ++ e.slashes)) ≡ true =
      ap prints (reverse-append e.origin e.slashes)
      ∙ prints-slashes (reverse e.slashes) (reverse e.origin)
          (all-reverse is_slash e.slashes ∙ k.slashes) k.last in
    ap (trim_right b'/') (
      trim_space-written e.before (e.origin ++ e.slashes) e.after k.before k.after
        (prints-append e.origin e.slashes k.first) ends)
    ∙ trim_right-append e.origin e.slashes k.unslashed k.slashes

-- whether a declared origin, a star or a name, admits another
abbrev pub names : Text → Text → Bool
names origin declared = text_eq declared (text "*") || text_eq origin declared

entry_names :
    (o t d : Text)
    → ends_in_slash o ≡ false
    → all is_slash t ≡ true
    → prints d ≡ true
    → entry_admits (o ++ t) d ≡ names o d
unfolding text_eq
entry_names o t [] e h p = cc
entry_names o t (c ∷ d) e h p = rw (trim_right-append o t e h) refl

any_entry :
    (o t : Text)
    → ends_in_slash o ≡ false
    → all is_slash t ≡ true
    → (es : List Entry) → All IsEntry es
    → any (λ s. entry_admits (o ++ t) (trimmed s)) (map written es)
      ≡ any (λ (e : Entry). names o e.origin) es
any_entry o t n h [] k = refl
any_entry o t n h (e ∷ es) k =
    rw (trimmed-written e k.0)
      (rw (entry_names o t e.origin n h k.0.first) (rw (any_entry o t n h es k.1) refl))

-- A policy that declared entries were added to admits an origin, with or without slashes at its end,
-- when it did before or one of the entries declares it: as a star or as the origin itself, whatever
-- ASCII white space is written around the entry and whatever slashes at its end.
pub allows-add_written :
    (p : CorsPolicy) (es : List Entry) (o t : Text)
    → All IsEntry es
    → ends_in_slash o ≡ false
    → all is_slash t ≡ true
    → allows (add_origins p (map written es)) (o ++ t)
      ≡ (any (λ (e : Entry). names o e.origin) es || allows p (o ++ t))
allows-add_written p es o t k n h =
    allows-add_origins p (map written es) (o ++ t)
    ∙ ap (λ b. b || allows p (o ++ t)) (any_entry o t n h es k)
