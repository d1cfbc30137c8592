-- ===== src/Config/Launch.antt =====
-- config/config.go: what the checks of a configuration promise for the launch after them.
use ranke_db.Base.{
  ◌≡◌, refl, sym, ap, ◌∙◌, inl, inr, Bool, true, false, ◌&&◌, ℕ, Option, none, some, List, [], ◌∷◌,
  ◌++◌, Text, text_eq, text_eq_iff, any, all, All, ok, succeeds, arith, &&-split, Bool-cases,
  Option-cases, Result-cases, if◌then◌else◌,
}
use mathlib.Core.Path.{subst}
use ranke_db.Base.Dict.{Dict, lookup, insert}
use ranke_db.Access.Grant.{Grant}
use ranke_db.Access.Checker.{Checker, Principal, held, new_checker, allow, any_allows}
use ranke_db.Access.Checker.Built.{Parses, specs_of, new_checker-Parses}
use ranke_db.Access.Checker.Policy.{in_order, succeeds-new_checker}
use ranke_db.Config.Resolved.{}
use ranke_db.Config.Load.{
  EndpointConfig, LaunchConfig, LoadError, undefined_account, bad_policy, check_admits, check_addr,
  or_else, check_endpoints, load, grants_of, admitted, endpoint_checker,
}

specs_of-insert :
    (j k : Text) (specs : List Text) (m : Dict (List Text))
    → text_eq k j ≡ false
    → specs_of j (insert k specs m) ≡ specs_of j m
unfolding insert
specs_of-insert j k specs [] h = rw (h) refl
specs_of-insert j k specs ((i, v) ∷ m) h = elim (Bool-cases (text_eq i k)) [
  | inl e ↦
      let same : text_eq i j ≡ false = ap (λ n. text_eq n j) ((text_eq_iff i k).0 e) ∙ h in
      rw (e, insert) (rw (h) (rw (same) refl))
  | inr e ↦
      rw (e, insert)
        (ap (λ more. if text_eq i j then v ++ more else more) (specs_of-insert j k specs m h))
]

specs_of-admitted :
    (accounts : Dict (List Text)) (j : Text) (names : List Text) (m : Dict (List Text))
    → any (λ name. text_eq name j) names ≡ false
    → specs_of j (admitted accounts names m) ≡ specs_of j m
unfolding admitted
specs_of-admitted accounts j [] m h = refl
specs_of-admitted accounts j (n ∷ names) m h = elim (Bool-cases (text_eq n j)) [
  | inl e ↦ ground arith
  | inr e ↦
      specs_of-admitted accounts j names (insert n (grants_of accounts n) m) (ground arith)
      ∙ specs_of-insert j n (grants_of accounts n) m e
]

nothing_held : (specs : List Text) (gs : List Grant) → specs ≡ [] → Parses specs gs → gs ≡ []
nothing_held [] [] e h = refl
nothing_held [] (g ∷ gs) e h = elim h [ ]
nothing_held (s ∷ ss) gs e h = cc

-- An endpoint allows a request only to an account that it admits: another endpoint's accounts, and
-- every account of the roster that its list leaves out, have no right on it.
pub allow-endpoint_checker :
    (c : LaunchConfig) (ec : EndpointConfig) (chk : Checker) (p : Principal) (right : ℕ)
    (branch : Text)
    → endpoint_checker c ec ≡ ok chk
    → allow chk p right branch ≡ true
    → any (λ name. text_eq name p.account) ec.admit ≡ true
unfolding endpoint_checker allow any_allows
allow-endpoint_checker c ec chk p right branch h a =
    elim (Bool-cases (any (λ name. text_eq name p.account) ec.admit)) [
      | inl e ↦ e
      | inr e ↦
          let none_held =
            nothing_held (specs_of p.account (admitted c.accounts ec.admit []))
              (held chk.accounts p.account) (specs_of-admitted c.accounts p.account ec.admit [] e)
              (new_checker-Parses (admitted c.accounts ec.admit []) chk p.account h) in
          let denied : allow chk p right branch ≡ false = rw (none_held, allow) refl in cc
    ]

lookup-in_order :
    (name : Text) (specs : List Text) (m : Dict (List Text))
    → all in_order m ≡ true
    → lookup name m ≡ some specs
    → in_order (name, specs) ≡ true
unfolding lookup
lookup-in_order name specs [] h l = cc
lookup-in_order name specs ((n, v) ∷ m) h l =
    let both = &&-split (in_order (n, v)) (all in_order m) h in
    elim (Bool-cases (text_eq n name)) [
      | inl e ↦
          let found : some v ≡ some specs = sym (rw (e, lookup) refl) ∙ l in
          let same : v ≡ specs = cc in
          subst (λ k. in_order (k, specs) ≡ true) ((text_eq_iff n name).0 e)
            (subst (λ w. in_order (n, w) ≡ true) same both.0)
      | inr e ↦
          let rest : lookup name m ≡ some specs = sym (rw (e, lookup) refl) ∙ l in
          lookup-in_order name specs m both.1 rest
    ]

both_true : (a b : Bool) → a ≡ true → b ≡ true → (a && b) ≡ true
both_true a b h k = ground arith

all_in_order-insert :
    (name : Text) (specs : List Text) (m : Dict (List Text))
    → in_order (name, specs) ≡ true
    → all in_order m ≡ true
    → all in_order (insert name specs m) ≡ true
unfolding insert
all_in_order-insert name specs [] h a = both_true (in_order (name, specs)) true h refl
all_in_order-insert name specs ((n, v) ∷ m) h a =
    let both = &&-split (in_order (n, v)) (all in_order m) a in
    elim (Bool-cases (text_eq n name)) [
      | inl e ↦ rw (e, insert) (both_true (in_order (name, specs)) (all in_order m) h both.1)
      | inr e ↦
          rw (e, insert)
            (both_true (in_order (n, v)) (all in_order (insert name specs m)) both.0
              (all_in_order-insert name specs m h both.1))
    ]

all_in_order-admitted :
    (accounts : Dict (List Text)) (names : List Text) (m : Dict (List Text))
    → all in_order accounts ≡ true
    → check_admits accounts names ≡ none
    → all in_order m ≡ true
    → all in_order (admitted accounts names m) ≡ true
unfolding admitted check_admits
all_in_order-admitted accounts [] m g c a = a
all_in_order-admitted accounts (name ∷ names) m g c a = elim (Option-cases (lookup name accounts)) [
  | inl e ↦
      let refused : check_admits accounts (name ∷ names) ≡ some (undefined_account name) =
        rw (e, check_admits) refl in
      cc
  | inr (specs, e) ↦
      let rest : check_admits accounts names ≡ none = sym (rw (e, check_admits) refl) ∙ c in
      let same : grants_of accounts name ≡ specs = rw (e, grants_of) refl in
      let good =
        subst (λ v. in_order (name, v) ≡ true) (sym same)
          (lookup-in_order name specs accounts g e) in
      all_in_order-admitted accounts names (insert name (grants_of accounts name) m) g rest
        (all_in_order-insert name (grants_of accounts name) m good a)
]

or_else-none : (a b : Option LoadError) → or_else a b ≡ none → (a ≡ none) × (b ≡ none)
or_else-none none b h = (refl, h)
or_else-none (some e) b h = cc

check_endpoints-none :
    (accounts : Dict (List Text)) (ecs : List EndpointConfig)
    → check_endpoints accounts ecs ≡ none
    → All (λ ec. check_admits accounts ec.admit ≡ none) ecs
unfolding check_endpoints
check_endpoints-none accounts [] h = tt
check_endpoints-none accounts (ec ∷ ecs) h =
    let (a, more) = or_else-none (check_admits accounts ec.admit) _ h in
    let (b, rest) = or_else-none (check_addr ec.transport) _ more in
    (a, check_endpoints-none accounts ecs rest)

load-none :
    (c : LaunchConfig)
    → load c ≡ none
    → (all in_order c.accounts ≡ true) × (check_endpoints c.accounts c.endpoints ≡ none)
unfolding load
load-none c h = elim (Result-cases (new_checker c.accounts)) [
  | inl (e, g) ↦ let refused : load c ≡ some (bad_policy e) = rw (g, load) refl in cc
  | inr (k, g) ↦
      (sym (succeeds-new_checker c.accounts) ∙ ap succeeds g, sym (rw (g, load) refl) ∙ h)
]

checkers_build :
    (c : LaunchConfig) (ecs : List EndpointConfig)
    → all in_order c.accounts ≡ true
    → All (λ ec. check_admits c.accounts ec.admit ≡ none) ecs
    → All (λ ec. succeeds (endpoint_checker c ec) ≡ true) ecs
unfolding endpoint_checker
checkers_build c [] g h = tt
checkers_build c (ec ∷ ecs) g h = (
  succeeds-new_checker (admitted c.accounts ec.admit [])
      ∙ all_in_order-admitted c.accounts ec.admit [] g h.0 refl,
  checkers_build c ecs g h.1,
)

-- A configuration that loads has no policy left to fail at launch: the checker of every endpoint is
-- built from the accounts it admits without an error.
pub load_builds :
    (c : LaunchConfig)
    → load c ≡ none
    → All (λ ec. succeeds (endpoint_checker c ec) ≡ true) c.endpoints
load_builds c h =
    let (g, k) = load-none c h in
    checkers_build c c.endpoints g (check_endpoints-none c.accounts c.endpoints k)
