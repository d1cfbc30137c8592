-- ===== src/Client.antt =====
-- client/contributor_window.go: the window in which a contributor's key is valid. A time is a number,
-- and the claims and edges of ranke-go and the parsing of timestamps are parameters.
pub mod Admission
pub mod Ready
mod Tests
use ranke_db.Base.{
  ℕ, Bool, true, false, ◌&&◌, Option, none, some, List, [], ◌∷◌, Text, Result, ok, err, ◌>>=◌, leb,
  ltb, if◌then◌else◌,
}

pub record Claims : Type 1 where
  pub Claim : Type 0
  pub Edge : Type 0
  pub Name : Type 0
  pub id : Claim → Name
  pub edges : Claim → List Edge
  pub has_field : Claim → Text → Bool
  pub field : Claim → Text → Option Text
  pub is_expiry : Edge → Bool
  pub refers_to : Edge → Name → Bool
  pub edge_field : Edge → Text → Option Text
  pub parse_time : Text → Option ℕ
  -- the names of the two fields
  pub valid_from : Text
  pub expires_after : Text

pub data WindowError : Type 0 where
  unreadable_field : Text → WindowError
  not_a_timestamp : Text → Text → WindowError

-- `ContributorWindow`
pub record Window : Type 0 where
  pub from : Option ℕ
  pub until : Option ℕ
  pub revoked : Bool

-- `at` is not before the bound
unfoldable pub not_before : Option ℕ → ℕ → Bool
not_before none at = true
not_before (some b) at = leb b at

-- `at` is not after the bound
unfoldable pub not_after : Option ℕ → ℕ → Bool
not_after none at = true
not_after (some b) at = leb at b

-- `Admits`
unfoldable pub admits : Window → ℕ → Bool
admits w at = not_before w.from at && not_after w.until at

-- a time before a bound, where an absent bound is after every time
unfoldable pub is_earlier : ℕ → Option ℕ → Bool
is_earlier at none = true
is_earlier at (some b) = ltb at b

-- the update of `earliest`
unfoldable pub earlier_of : Option ℕ → Option ℕ → Option ℕ
earlier_of none earliest = earliest
earlier_of (some at) earliest = if is_earlier at earliest then some at else earliest

-- the last test of `ContributorWindowOf`
unfoldable pub shorten : Window → Option ℕ → Window
shorten w none = w
shorten w (some at) =
    if is_earlier at w.until then record w { until = some at; revoked = true } else w

module _ (C : Claims) where
  open C use {
    Claim, Edge, Name, id, edges, has_field, field, is_expiry, refers_to, edge_field, parse_time,
    valid_from, expires_after,
  }

  -- `parseBound`
  unfoldable pub parse_bound : Text → Text → Result WindowError (Option ℕ)
  parse_bound key [] = ok none
  parse_bound key (c ∷ raw) = elim (parse_time (c ∷ raw)) [
    | none ↦ err (not_a_timestamp key (c ∷ raw))
    | some at ↦ ok (some at)
  ]

  -- `keyBound`
  unfoldable pub key_bound : Claim → Text → Result WindowError (Option ℕ)
  key_bound self key =
      if has_field self key
      then elim (field self key) [
        | none ↦ err (unreadable_field key)
        | some raw ↦ parse_bound key raw
      ]
      else ok none

  -- `edgeBound`
  unfoldable pub edge_bound : Edge → Text → Result WindowError (Option ℕ)
  edge_bound e key = elim (edge_field e key) [ none ↦ ok none | some raw ↦ parse_bound key raw ]

  -- the inner loop of `revocation`
  unfoldable pub revocation_on : Name → List Edge → Option ℕ → Result WindowError (Option ℕ)
  revocation_on name [] earliest = ok earliest
  revocation_on name (e ∷ es) earliest =
      if is_expiry e && refers_to e name
      then elim (edge_bound e expires_after) [
        | err f ↦ err f
        | ok at ↦ revocation_on name es (earlier_of at earliest)
      ]
      else revocation_on name es earliest

  -- the outer loop of `revocation`
  unfoldable pub revocation_in : Name → List Claim → Option ℕ → Result WindowError (Option ℕ)
  revocation_in name [] earliest = ok earliest
  revocation_in name (c ∷ cs) earliest = do
    found ← revocation_on name (edges c) earliest
    revocation_in name cs found

  -- `revocation`
  unfoldable pub revocation : Name → List Claim → Result WindowError (Option ℕ)
  revocation name carriers = revocation_in name carriers none

  -- `ContributorWindowOf`
  unfoldable pub window_of : Claim → List Claim → Result WindowError Window
  window_of self carriers = do
    from ← key_bound self valid_from
    until ← key_bound self expires_after
    revoked ← revocation (id self) carriers
    ok (shorten (record { from = from; until = until; revoked = false }) revoked)
