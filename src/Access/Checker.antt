-- ===== src/Access/Checker.antt =====
-- internal/core/access/access.go: principals, and the checker over the configured accounts.
pub mod Built
pub mod Policy
use ranke_db.Base.{
  ℕ, Bool, false, none, some, List, [], ◌∷◌, ◌++◌, map, Text, text_eq, any, all, Result, ok, err,
  ◌>>=◌, if◌then◌else◌,
}
use ranke_db.Base.Dict.{Dict, lookup, insert}
use ranke_db.Access.Grant.{Grant, GrantError, parse_grant, print_grant, allows}

pub record Principal : Type 0 where
  pub account : Text
  pub caveats : List Grant

pub record Checker : Type 0 where
  pub accounts : Dict (List Grant)

pub data PolicyError : Type 0 where
  empty_account : PolicyError
  bad_grant : Text → GrantError → PolicyError

-- `c.accounts[name]`, nil for a missing key
unfoldable pub held : Dict (List Grant) → Text → List Grant
held m name = elim (lookup name m) [ none ↦ [] | some gs ↦ gs ]

-- the inner loop of `New`: the specs of one account
unfoldable pub add_specs :
    Text → List Text → Dict (List Grant) → Result PolicyError (Dict (List Grant))
add_specs name [] m = ok m
add_specs name (spec ∷ specs) m = elim (parse_grant spec) [
  | err e ↦ err (bad_grant name e)
  | ok g ↦ add_specs name specs (insert name (held m name ++ (g ∷ [])) m)
]

-- the outer loop of `New`
unfoldable pub add_accounts :
    List (Text × List Text) → Dict (List Grant) → Result PolicyError (Dict (List Grant))
add_accounts [] m = ok m
add_accounts ((name, specs) ∷ rest) m =
    if text_eq name []
    then err empty_account
    else do m' ← add_specs name specs m; add_accounts rest m'

-- `New`: the order of the accounts is that of Go's map iteration
unfoldable pub new_checker : List (Text × List Text) → Result PolicyError Checker
new_checker accounts = do m ← add_accounts accounts []; ok (record { accounts = m })

-- `Checker.Grants`
unfoldable pub grants : Checker → Text → List Text
grants c account = map print_grant (held c.accounts account)

unfoldable pub any_allows : List Grant → ℕ → Text → Bool
any_allows gs right branch = any (λ g. allows g right branch) gs

unfoldable pub all_allows : List Grant → ℕ → Text → Bool
all_allows gs right branch = all (λ g. allows g right branch) gs

-- `Checker.Allow`
unfoldable pub allow : Checker → Principal → ℕ → Text → Bool
allow c p right branch =
    if any_allows (held c.accounts p.account) right branch
    then all_allows p.caveats right branch
    else false
