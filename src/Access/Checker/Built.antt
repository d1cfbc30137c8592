-- ===== src/Access/Checker/Built.antt =====
-- What `New` builds: each account holds the grants that its specs parse to, in their order.
use ranke_db.Base.{
  ◌≡◌, refl, inl, inr, List, [], ◌∷◌, ◌++◌, Text, text_eq, text_eq_iff, ok, bind-eq-ok, arith,
  Bool-cases, Result-cases, if◌then◌else◌,
}
use mathlib.Core.Path.{subst}
use mathlib.Core.List.{append-nil, append_assoc}
use ranke_db.Base.Dict.{Dict, lookup, insert, lookup-insert}
use ranke_db.Access.Grant.{Grant, parse_grant}
use ranke_db.Access.Checker.{Checker, held, add_specs, add_accounts, new_checker}

-- The specs parse to the grants, one to one.
abbrev pub Parses : List Text → List Grant → Type 0
Parses [] [] = Unit
Parses [] (_ ∷ _) = ⊥
Parses (_ ∷ _) [] = ⊥
Parses (s ∷ ss) (g ∷ gs) = (parse_grant s ≡ ok g) × Parses ss gs

Parses-append :
    (ss : List Text) (gs : List Grant) (ts : List Text) (hs : List Grant)
    → Parses ss gs
    → Parses ts hs
    → Parses (ss ++ ts) (gs ++ hs)
Parses-append [] [] ts hs p q = q
Parses-append [] (g ∷ gs) ts hs p q = absurd p
Parses-append (s ∷ ss) [] ts hs p q = absurd p
Parses-append (s ∷ ss) (g ∷ gs) ts hs p q = (p.0, Parses-append ss gs ts hs p.1 q)

held-insert :
    (k j : Text) (gs : List Grant) (m : Dict (List Grant))
    → held (insert k gs m) j ≡ (if text_eq k j then gs else held m j)
unfolding held
held-insert k j gs m = ground (arith, lookup-insert k j gs m)

held_empty : (name : Text) → held [] name ≡ []
unfolding held lookup
held_empty name = refl

-- What the specs of one account add to what each account holds.
record Added (name : Text) (specs : List Text) (m m' : Dict (List Grant)) : Type 0 where
  new : List Grant
  parsed : Parses specs new
  after : (j : Text) → held m' j ≡ (if text_eq name j then held m j ++ new else held m j)

Added_after :
    (name : Text) (m m' : Dict (List Grant)) (g : Grant) (new : List Grant) (j : Text)
    → held m' j ≡ (
        if text_eq name j
        then held (insert name (held m name ++ (g ∷ [])) m) j ++ new
        else held (insert name (held m name ++ (g ∷ [])) m) j)
    → held m' j ≡ (if text_eq name j then held m j ++ (g ∷ new) else held m j)
Added_after name m m' g new j e = ground (
  arith,
  text_eq_iff name j,
  held-insert name j (held m name ++ (g ∷ [])) m,
  append_assoc (held m name) (g ∷ []) new,
)

Added-cons :
    (name spec : Text) (specs : List Text) (m m' : Dict (List Grant)) (g : Grant)
    → parse_grant spec ≡ ok g
    → Added name specs (insert name (held m name ++ (g ∷ [])) m) m'
    → Added name (spec ∷ specs) m m'
Added-cons name spec specs m m' g p a = record {
  new = g ∷ a.new;
  parsed = (p, a.parsed);
  after = λ j. Added_after name m m' g a.new j (a.after j);
}

add_specs-Added :
    (name : Text) (specs : List Text) (m m' : Dict (List Grant))
    → add_specs name specs m ≡ ok m'
    → Added name specs m m'
unfolding add_specs
add_specs-Added name [] m m' h = record {
  new = [];
  parsed = tt;
  after = λ j. ground (arith, append-nil (held m j));
}
add_specs-Added name (spec ∷ specs) m m' h = elim (Result-cases (parse_grant spec)) [
  | inl (e, p) ↦ ground arith
  | inr (g, p) ↦
      Added-cons name spec specs m m' g p
        (add_specs-Added name specs (insert name (held m name ++ (g ∷ [])) m) m' (ground arith))
]

-- the specs of every entry with this name
abbrev pub specs_of : Text → List (Text × List Text) → List Text
specs_of name [] = []
specs_of name ((n, specs) ∷ rest) =
    let more = specs_of name rest in if text_eq n name then specs ++ more else more

record Holds (accounts : List (Text × List Text)) (name : Text) (m m' : Dict (List Grant))
    : Type 0 where
  new : List Grant
  parsed : Parses (specs_of name accounts) new
  after : held m' name ≡ held m name ++ new

Holds-cons :
    (n : Text) (specs : List Text) (rest : List (Text × List Text)) (name : Text)
    (m m₁ m' : Dict (List Grant))
    → Added n specs m m₁
    → Holds rest name m₁ m'
    → Holds ((n, specs) ∷ rest) name m m'
Holds-cons n specs rest name m m₁ m' a h = elim (Bool-cases (text_eq n name)) [
  | inl same ↦ record {
    new = a.new ++ h.new;
    parsed = rw same (Parses-append specs a.new (specs_of name rest) h.new a.parsed h.parsed);
    after = ground (arith, a.after name, h.after, append_assoc (held m name) a.new h.new);
  }
  | inr other ↦ record {
    new = h.new;
    parsed = rw other h.parsed;
    after = ground (arith, a.after name, h.after);
  }
]

add_accounts-Holds :
    (accounts : List (Text × List Text)) (name : Text) (m m' : Dict (List Grant))
    → add_accounts accounts m ≡ ok m'
    → Holds accounts name m m'
unfolding add_accounts
add_accounts-Holds [] name m m' h = record {
  new = [];
  parsed = tt;
  after = ground (arith, append-nil (held m name));
}
add_accounts-Holds ((n, specs) ∷ rest) name m m' h = elim (Bool-cases (text_eq n [])) [
  | inl e ↦ ground arith
  | inr e ↦ elim (Result-cases (add_specs n specs m)) [
    | inl (x, p) ↦ ground arith
    | inr (m₁, p) ↦
        Holds-cons n specs rest name m m₁ m' (add_specs-Added n specs m m₁ p)
          (add_accounts-Holds rest name m₁ m' (ground arith))
  ]
]

-- A checker that was built holds, for every account name, the grants that the specs configured
-- under that name parse to, one for one and in their order, and none for a name with no specs.
pub new_checker-Parses :
    (accounts : List (Text × List Text)) (c : Checker) (name : Text)
    → new_checker accounts ≡ ok c
    → Parses (specs_of name accounts) (held c.accounts name)
unfolding new_checker
new_checker-Parses accounts c name h =
    let (m, p, q) = bind-eq-ok (add_accounts accounts []) (λ m. ok (record { accounts = m })) h in
    let a = add_accounts-Holds accounts name [] m p in
    subst (Parses (specs_of name accounts)) (ground (arith, held_empty name)) a.parsed
