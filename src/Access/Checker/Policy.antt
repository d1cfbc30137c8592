-- ===== src/Access/Checker/Policy.antt =====
-- What the checker allows: the reserved branches, the caveats, and the grants that it reports.
use ranke_db.Base.{
  ℕ, ◌≡◌, ◌≢◌, ◌∙◌, sym, ap, refl, inl, inr, Bool, true, false, not, ◌&&◌, none, some, List, [],
  ◌∷◌, ◌++◌, map, Text, text, text_eq, text_eq_iff, has_prefix, all, all-append, Some, succeeds, ok,
  arith, Bool-cases, Result-cases,
}
use ranke_db.Base.Dict.{Dict, insert}
use ranke_db.Access.Glob.{match_branch}
use ranke_db.Access.Grant.{
  Grant, universe, archive, sequencer, branches, read_right, bit, branch_glob, holds, parse_grant,
  print_grant, allows,
}
use ranke_db.Access.Grant.Legal.{LegalGlob, parse_grant-IsParsed}
use ranke_db.Access.Grant.RoundTrip.{parse-print}
use ranke_db.Access.Checker.{
  Principal, Checker, held, add_specs, add_accounts, new_checker, grants, any_allows, all_allows,
  allow,
}
use ranke_db.Access.Checker.Built.{Parses, specs_of, new_checker-Parses}

-- an entry of the configuration that is in order
abbrev pub in_order : Text × List Text → Bool
in_order (name, specs) = not (text_eq name []) && all (λ spec. succeeds (parse_grant spec)) specs

succeeds-add_specs :
    (name : Text) (specs : List Text) (m : Dict (List Grant))
    → succeeds (add_specs name specs m) ≡ all (λ spec. succeeds (parse_grant spec)) specs
unfolding add_specs
succeeds-add_specs name [] m = refl
succeeds-add_specs name (spec ∷ specs) m = elim (Result-cases (parse_grant spec)) [
  | inl (e, p) ↦ ground arith
  | inr (g, p) ↦
      ground (arith, succeeds-add_specs name specs (insert name (held m name ++ (g ∷ [])) m))
]

succeeds-add_accounts :
    (accounts : List (Text × List Text)) (m : Dict (List Grant))
    → succeeds (add_accounts accounts m) ≡ all in_order accounts
unfolding add_accounts
succeeds-add_accounts [] m = refl
succeeds-add_accounts ((name, specs) ∷ rest) m = elim (Result-cases (add_specs name specs m)) [
  | inl (e, p) ↦ ground (arith, succeeds-add_specs name specs m)
  | inr (m', p) ↦ ground (arith, succeeds-add_specs name specs m, succeeds-add_accounts rest m')
]

-- `New` succeeds exactly when no account has an empty name and every spec of every account parses,
-- in whatever order Go iterates over the accounts.
pub succeeds-new_checker :
    (accounts : List (Text × List Text)) → succeeds (new_checker accounts) ≡ all in_order accounts
unfolding new_checker
succeeds-new_checker accounts = ground (arith, succeeds-add_accounts accounts [])

Parses-print :
    (specs : List Text) (gs : List Grant) → Parses specs gs → Parses (map print_grant gs) gs
Parses-print [] [] h = tt
Parses-print [] (g ∷ gs) h = absurd h
Parses-print (s ∷ ss) [] h = absurd h
Parses-print (s ∷ ss) (g ∷ gs) h = (parse-print s g h.0, Parses-print ss gs h.1)

-- The specs that a built checker reports for an account parse, one for one, to the grants that it
-- holds for that account.
pub grants-Parses :
    (accounts : List (Text × List Text)) (c : Checker) (name : Text)
    → new_checker accounts ≡ ok c
    → Parses (grants c name) (held c.accounts name)
unfolding grants
grants-Parses accounts c name h =
    Parses-print (specs_of name accounts) (held c.accounts name)
      (new_checker-Parses accounts c name h)

-- a spec whose grant carries the right and names the branch itself
abbrev pub Names : ℕ → Text → Text → Type 0
Names right branch spec =
    (g : Grant) × (parse_grant spec ≡ ok g) × (g.glob ≡ branch) × (allows g right branch ≡ true)

literal_of_allows :
    (g : Grant) (right : ℕ) (branch : Text)
    → has_prefix branch (text "$") ≡ true
    → allows g right branch ≡ true
    → g.glob ≡ branch
unfolding allows match_branch
literal_of_allows g right branch d h =
    elim (bit right) as (λ o. bit right ≡ o → g.glob ≡ branch) [
      | none ↦ λ e. ground arith
      | some b ↦ λ e. ground (arith, text_eq_iff g.glob branch)
    ]
      refl

Names-of_any :
    (specs : List Text) (gs : List Grant) (right : ℕ) (branch : Text)
    → has_prefix branch (text "$") ≡ true
    → Parses specs gs
    → any_allows gs right branch ≡ true
    → Some (Names right branch) specs
unfolding any_allows
Names-of_any [] [] right branch d h a = cc
Names-of_any [] (g ∷ gs) right branch d h a = absurd h
Names-of_any (s ∷ ss) [] right branch d h a = absurd h
Names-of_any (s ∷ ss) (g ∷ gs) right branch d h a = elim (Bool-cases (allows g right branch)) [
  | inl e ↦ inl (g, h.0, literal_of_allows g right branch d e, e)
  | inr e ↦ inr (Names-of_any ss gs right branch d h.1 (ground arith))
]

-- On a branch whose name begins with `$` a built checker allows a right only by a spec configured
-- for the account whose glob is that very name and whose grant carries the right: no wildcard
-- reaches a reserved branch.
pub allow-reserved :
    (accounts : List (Text × List Text)) (c : Checker) (p : Principal) (right : ℕ) (branch : Text)
    → new_checker accounts ≡ ok c
    → has_prefix branch (text "$") ≡ true
    → allow c p right branch ≡ true
    → Some (Names right branch) (specs_of p.account accounts)
unfolding allow
allow-reserved accounts c p right branch h d a =
    Names-of_any (specs_of p.account accounts) (held c.accounts p.account) right branch d
      (new_checker-Parses accounts c p.account h) (ground arith)

read_of_bit : (right : ℕ) → bit right ≡ some 2 → right ≡ read_right
unfolding bit
read_of_bit right h = ground arith

other_names : (name : Text) → text_eq name universe ≡ false → name ≢ universe
other_names name h e = cc (h, (text_eq_iff name universe).1 e)

universe-branch_glob : branch_glob universe ≡ false
unfolding branch_glob
universe-branch_glob = refl

rights_at_universe : (rs : ℕ) (glob : Text) → glob ≡ universe → LegalGlob rs glob → rs ≡ 2
unfolding text_eq
rights_at_universe rs glob e (inl (p, r)) = r
rights_at_universe rs glob e (inr (inl p)) = absurd (other_names archive refl (sym p ∙ e))
rights_at_universe rs glob e (inr (inr (inl p))) = absurd (other_names sequencer refl (sym p ∙ e))
rights_at_universe rs glob e (inr (inr (inr (inl p)))) =
    absurd (other_names branches refl (sym p ∙ e))
rights_at_universe rs glob e (inr (inr (inr (inr (p, q))))) =
    cc (p, ap branch_glob e, universe-branch_glob)

-- the bits that share one with R
bits_of_read :
    (right : ℕ) → elim (bit right) [ none ↦ false | some b ↦ holds 2 b ] ≡ true → right ≡ read_right
unfolding bit
bits_of_read right h = ground arith

only_read :
    (spec : Text) (g : Grant) (right : ℕ)
    → parse_grant spec ≡ ok g
    → g.glob ≡ universe
    → allows g right universe ≡ true
    → right ≡ read_right
unfolding allows
only_read spec g right h e a =
    let two = rights_at_universe g.rights g.glob e (parse_grant-IsParsed spec g h).legal in
    bits_of_read right (ground arith)

Names-only_read :
    (specs : List Text) (right : ℕ) → Some (Names right universe) specs → right ≡ read_right
Names-only_read [] right h = absurd h
Names-only_read (s ∷ ss) right (inl (g, p, e, a)) = only_read s g right p e a
Names-only_read (s ∷ ss) right (inr h) = Names-only_read ss right h

-- A built checker allows nothing but reading on `$universe`, to any account and under any caveats.
pub allow-universe :
    (accounts : List (Text × List Text)) (c : Checker) (p : Principal) (right : ℕ)
    → new_checker accounts ≡ ok c
    → allow c p right universe ≡ true
    → right ≡ read_right
allow-universe accounts c p right h a =
    Names-only_read (specs_of p.account accounts) right
      (allow-reserved accounts c p right universe h (unfold has_prefix in refl) a)

-- Each further caveat narrows: what the principal may do with more caveats is what it might do
-- before and what every one of the new caveats allows.
pub allow-append :
    (c : Checker) (account : Text) (cs ds : List Grant) (right : ℕ) (branch : Text)
    → allow c (record { account = account; caveats = cs ++ ds }) right branch ≡ (
        allow c (record { account = account; caveats = cs }) right branch
        && all_allows ds right branch)
unfolding allow all_allows
allow-append c account cs ds right branch =
    ground (arith, all-append (λ g. allows g right branch) cs ds)
