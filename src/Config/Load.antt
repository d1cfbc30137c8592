-- ===== src/Config/Load.antt =====
-- config/config.go: the offline checks of a parsed configuration, the checker of an endpoint, and the
-- pass that resolves every reference.
use ranke_db.Base.{Option, none, some, List, [], ◌∷◌, ◌++◌, Text, text, Result, ok, err}
use ranke_db.Base.Dict.{Dict, lookup, insert}
use ranke_db.Access.Checker.{Checker, PolicyError, new_checker}
use ranke_db.Rest.Listen.{AddressError, validate_addr}
use ranke_db.Config.{Fields, string, null}
use ranke_db.Config.Secrets.{VaultPort, Box}
use ranke_db.Config.Sections.{Checked, and_then, find, resolve_fields}

-- `endpointConfig`
pub record EndpointConfig : Type 0 where
  pub transport : Fields
  pub auth : List Fields
  pub admit : List Text

-- `Config`, with the grants of each account under its name
pub record LaunchConfig : Type 0 where
  pub signer : Fields
  pub vault : Fields
  pub storage : Fields
  pub sequencer : Fields
  pub accounts : Dict (List Text)
  pub endpoints : List EndpointConfig

pub data LoadError : Type 0 where
  bad_policy : PolicyError → LoadError
  undefined_account : Text → LoadError
  bad_addr : AddressError → LoadError

-- the inner loop of `load`: the names that an endpoint admits
unfoldable pub check_admits : Dict (List Text) → List Text → Option LoadError
check_admits accounts [] = none
check_admits accounts (name ∷ names) =
    let rest = check_admits accounts names in
    elim (lookup name accounts) [ none ↦ some (undefined_account name) | some _ ↦ rest ]

abbrev pub invalid_addr : Option AddressError → Option LoadError
invalid_addr none = none
invalid_addr (some e) = some (bad_addr e)

-- the address of a transport, where it is a string; null is read as the empty one
unfoldable pub check_addr : Fields → Option LoadError
unfolding find validate_addr
check_addr transport = elim (find (text "addr") transport) [
  | some (string addr) ↦ invalid_addr (validate_addr addr)
  | some null ↦ invalid_addr (validate_addr [])
  | _ ↦ none
]

-- `if err != nil { return err }`
abbrev pub or_else : Option LoadError → Option LoadError → Option LoadError
or_else (some e) next = some e
or_else none next = next

-- the loop of `load` over the endpoints
unfoldable pub check_endpoints : Dict (List Text) → List EndpointConfig → Option LoadError
unfolding check_admits check_addr
check_endpoints accounts [] = none
check_endpoints accounts (ec ∷ ecs) =
    or_else (check_admits accounts ec.admit)
      (or_else (check_addr ec.transport) (check_endpoints accounts ecs))

-- `load` of what the decoder returns
unfoldable pub load : LaunchConfig → Option LoadError
unfolding check_endpoints
load c = elim (new_checker c.accounts) [
  | err e ↦ some (bad_policy e)
  | ok _ ↦ check_endpoints c.accounts c.endpoints
]

-- `c.Accounts[name].Grants`
abbrev pub grants_of : Dict (List Text) → Text → List Text
grants_of accounts name = elim (lookup name accounts) [ none ↦ [] | some specs ↦ specs ]

-- the loop of `buildEndpoint` over the names it admits
unfoldable pub admitted : Dict (List Text) → List Text → Dict (List Text) → Dict (List Text)
admitted accounts [] m = m
admitted accounts (name ∷ names) m =
    admitted accounts names (insert name (grants_of accounts name) m)

-- the checker of `buildEndpoint`
unfoldable pub endpoint_checker : LaunchConfig → EndpointConfig → Result PolicyError Checker
unfolding admitted
endpoint_checker c ec = new_checker (admitted c.accounts ec.admit [])

-- the sections of the endpoints in the order of `resolveAll`
abbrev pub endpoint_sections : List EndpointConfig → List Fields
endpoint_sections [] = []
endpoint_sections (ec ∷ ecs) = (ec.transport ∷ ec.auth) ++ endpoint_sections ecs

abbrev pub sections_of : LaunchConfig → List Fields
sections_of c = c.signer ∷ c.storage ∷ c.sequencer ∷ endpoint_sections c.endpoints

module _ (V : VaultPort) where
  unfoldable pub resolve_each : List Fields → Box V → Checked V
  unfolding resolve_fields
  resolve_each [] b = (none, b)
  resolve_each (s ∷ ss) b = and_then V (resolve_fields V s b) (resolve_each ss)

  -- `resolveAll`; an empty section has nothing to resolve
  unfoldable pub resolve_all : LaunchConfig → Box V → Checked V
  unfolding resolve_each
  resolve_all c = resolve_each (sections_of c)
