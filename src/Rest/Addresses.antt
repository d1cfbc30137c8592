-- ===== src/Rest/Addresses.antt =====
-- adapters/endpoints/rest_http/rest_http.go: what is made of an address, offline and at launch.
use ranke_db.Base.{
  ◌≡◌, ◌≢◌, refl, sym, ap, ◌∙◌, ◌||◌, true, false, inl, inr, ◌≤◌, ◌<◌, none, some, [], ◌∷◌, ◌++◌,
  Text, text, text_eq, length, has_prefix, cut_prefix, ok, err, ltb, ◌==◌, arith, ==_iff,
  Bool-cases, Option-cases,
}
use mathlib.Core.Path.{ap₂}
use ranke_db.Rest.Listen.{
  tcp, unix, no_socket_path, socket_path_too_long, needs_scheme, unix_scheme, parse_addr,
  validate_addr, max_socket_path_len,
}

cut_prefix_lem : (s p r : Text) → cut_prefix s p ≡ some r → s ≡ p ++ r
unfolding cut_prefix
cut_prefix_lem s [] r h = ground (arith, h)
cut_prefix_lem [] (_ ∷ _) r h = cc
cut_prefix_lem (a ∷ s) (b ∷ p) r h = elim (Bool-cases (a == b)) [
  | inl e ↦
      let tail : cut_prefix s p ≡ some r = ground arith in
      ap₂ ◌∷◌ ((==_iff a b).0 e) (cut_prefix_lem s p r tail)
  | inr e ↦ ground arith
]

cut_prefix_absent : (p r : Text) → cut_prefix (p ++ r) p ≡ none → ⊥
unfolding cut_prefix
cut_prefix_absent [] r h = cc
cut_prefix_absent (a ∷ p) r h = cut_prefix_absent p r (ground (arith, h))

-- what the offline check and the launch make of an address
pub data Judged (addr : Text) : Type 0 where
  scheme_alone :
      addr ≡ unix_scheme
      → validate_addr addr ≡ none
      → parse_addr addr ≡ err no_socket_path
      → Judged addr
  socket :
      (path : Text)
      → addr ≡ unix_scheme ++ path
      → 1 ≤ length path
      → length path ≤ max_socket_path_len
      → validate_addr addr ≡ none
      → parse_addr addr ≡ ok (unix, path)
      → Judged addr
  long_socket :
      (path : Text)
      → addr ≡ unix_scheme ++ path
      → max_socket_path_len < length path
      → validate_addr addr ≡ some socket_path_too_long
      → parse_addr addr ≡ ok (unix, path)
      → Judged addr
  bare_path :
      ((path : Text) → addr ≢ unix_scheme ++ path)
      → (has_prefix addr (text "/") || has_prefix addr (text "./")) ≡ true
      → validate_addr addr ≡ some needs_scheme
      → parse_addr addr ≡ ok (tcp, addr)
      → Judged addr
  port :
      ((path : Text) → addr ≢ unix_scheme ++ path)
      → (has_prefix addr (text "/") || has_prefix addr (text "./")) ≡ false
      → validate_addr addr ≡ none
      → parse_addr addr ≡ ok (tcp, addr)
      → Judged addr

no_scheme : (addr path : Text) → cut_prefix addr unix_scheme ≡ none → addr ≢ unix_scheme ++ path
no_scheme addr path e q =
    cut_prefix_absent unix_scheme path (sym (ap (λ a. cut_prefix a unix_scheme) q) ∙ e)

-- The offline check and the launch agree on a `unix://` with a path of 1 to 107 bytes, a socket, and
-- on an address with neither the scheme nor the look of a path, which is taken as it is for TCP. The
-- check alone refuses a longer path and a path without the scheme; the launch alone refuses
-- `unix://` with no path, which the check accepts.
pub parse_addr-validate_addr : (addr : Text) → Judged addr
unfolding parse_addr validate_addr text_eq
parse_addr-validate_addr addr = elim (Option-cases (cut_prefix addr unix_scheme)) [
  | inl e ↦ elim (Bool-cases (has_prefix addr (text "/") || has_prefix addr (text "./"))) [
    | inl f ↦
        bare_path (λ path. no_scheme addr path e) f (rw (e, validate_addr) (rw (f) refl))
          (rw (e, parse_addr) refl)
    | inr f ↦
        port (λ path. no_scheme addr path e) f (rw (e, validate_addr) (rw (f) refl))
          (rw (e, parse_addr) refl)
  ]
  | inr ([], e) ↦
      scheme_alone (cut_prefix_lem addr unix_scheme [] e) (rw (e, validate_addr) refl)
        (rw (e, parse_addr) refl)
  | inr (c ∷ path, e) ↦ elim (Bool-cases (ltb max_socket_path_len (length (c ∷ path)))) [
    | inl f ↦
        long_socket (c ∷ path) (cut_prefix_lem addr unix_scheme (c ∷ path) e) (ground (arith, f))
          (rw (e, validate_addr) (rw (f) refl)) (rw (e, parse_addr) refl)
    | inr f ↦
        socket (c ∷ path) (cut_prefix_lem addr unix_scheme (c ∷ path) e) (omega arith)
          (ground (arith, f)) (rw (e, validate_addr) (rw (f) refl)) (rw (e, parse_addr) refl)
  ]
]
