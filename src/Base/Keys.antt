-- ===== src/Base/Keys.antt =====
-- The keys of a dictionary, and how often a text stands in a list.
use ranke_db.Base.Tests.{if◌then◌else◌}
use ranke_db.Base.Lists.{All}
use ranke_db.Base.Texts.{Text, text_eq, text_eq_iff}
use ranke_db.Base.Dict.{Dict, lookup, insert}
use Prim.Native.Nat.{ℕ, ◌+◌}
use mathlib.Core.Path.{◌≡◌, refl}
use mathlib.Core.Logic.{◌≢◌}
use mathlib.Core.Option.{none, some}
use mathlib.Core.List.{List, [], ◌∷◌, ◌++◌}
use native.Mathlib.Omega.{arith}

unfoldable pub count : Text → List Text → ℕ
count k [] = 0
count k (x ∷ xs) = let rest = count k xs in if text_eq x k then rest + 1 else rest

pub count-append : (k : Text) (xs ys : List Text) → count k (xs ++ ys) ≡ count k xs + count k ys
unfolding count
count-append k [] ys = omega arith
count-append k (x ∷ xs) ys = ground (arith, count-append k xs ys)

pub count-eq-zero : (k : Text) (xs : List Text) → All (λ x. x ≢ k) xs → count k xs ≡ 0
unfolding count
count-eq-zero k [] h = refl
count-eq-zero k (x ∷ xs) h = ground (arith, text_eq_iff x k, h.0, count-eq-zero k xs h.1)

module _ {ℓ} {V : Type ℓ} where
  unfoldable pub keys : Dict V → List Text
  keys [] = []
  keys ((k, v) ∷ m) = k ∷ keys m

  pub keys-insert_old :
      (k : Text) (v w : V) (m : Dict V) → lookup k m ≡ some w → keys (insert k v m) ≡ keys m
  unfolding keys lookup insert
  keys-insert_old k v w [] h = cc
  keys-insert_old k v w ((j, u) ∷ m) h = ground (arith, text_eq_iff j k, keys-insert_old k v w m)

  pub keys-insert_new :
      (k : Text) (v : V) (m : Dict V) → lookup k m ≡ none → keys (insert k v m) ≡ keys m ++ (k ∷ [])
  unfolding keys lookup insert
  keys-insert_new k v [] h = refl
  keys-insert_new k v ((j, u) ∷ m) h = ground (arith, text_eq_iff j k, keys-insert_new k v m)

  pub lookup-eq-none : (k : Text) (m : Dict V) → count k (keys m) ≡ 0 → lookup k m ≡ none
  unfolding keys lookup count
  lookup-eq-none k [] h = refl
  lookup-eq-none k ((j, u) ∷ m) h = ground (arith, lookup-eq-none k m)
