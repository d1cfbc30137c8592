-- ===== src/Config/References.antt =====
-- config/config.go: the pass over every reference of a configuration.
use ranke_db.Base.{◌≡◌, sym, ap, ◌∙◌, none, List, [], ◌∷◌, All}
use mathlib.Core.Path.{subst}
use ranke_db.Config.{Fields}
use ranke_db.Config.Secrets.{VaultPort, Box}
use ranke_db.Config.Cache.{Grows}
use ranke_db.Config.Sections.{Checked, resolve_fields}
use ranke_db.Config.Resolved.{
  Resolves, and_then-none, and_then-Grows, fields-Grows, later, resolve_fields-Resolves,
}
use ranke_db.Config.Strings.{EachField, EachField-map}
use ranke_db.Config.Load.{LaunchConfig, sections_of, resolve_each, resolve_all}

module _ (V : VaultPort) where
  resolve_each-Grows : (ss : List Fields) (b : Box V) → Grows V b (resolve_each V ss b).1
  unfolding resolve_each
  resolve_each-Grows [] b = λ j h. h
  resolve_each-Grows (s ∷ ss) b =
      and_then-Grows V b (resolve_fields V s b) (resolve_each V ss) (fields-Grows V s b)
        (resolve_each-Grows ss)

  All-later :
      (d e : Box V) (ss : List Fields)
      → Grows V d e
      → All (EachField (Resolves V d)) ss
      → All (EachField (Resolves V e)) ss
  All-later d e [] g h = tt
  All-later d e (s ∷ ss) g h =
      (EachField-map (Resolves V d) (Resolves V e) (later V d e g) s h.0, All-later d e ss g h.1)

  resolve_each-Resolves :
      (ss : List Fields) (b : Box V)
      → (resolve_each V ss b).0 ≡ none
      → All (EachField (Resolves V (resolve_each V ss b).1)) ss
  unfolding resolve_each
  resolve_each-Resolves [] b h = tt
  resolve_each-Resolves (s ∷ ss) b h =
      let o = resolve_fields V s b in
      let (n, e) = and_then-none V o (resolve_each V ss) h in
      let rest = resolve_each-Resolves ss o.1 (sym (ap (λ (c : Checked V). c.0) e) ∙ h) in
      subst (λ (c : Checked V). EachField (Resolves V c.1) s × All (EachField (Resolves V c.1)) ss)
        (sym e)
        (
          EachField-map (Resolves V o.1) (Resolves V (resolve_each V ss o.1).1)
              (later V o.1 (resolve_each V ss o.1).1 (resolve_each-Grows ss o.1)) s
              (resolve_fields-Resolves V s b n),
          rest,
        )

  -- Where the pass over a whole configuration found no unresolvable reference, no later reading of a
  -- string of the signer's, the storage's, the sequencer's or an endpoint's sections fails to resolve,
  -- with the cache it left or any grown from it, whether the vault can still be reached or not.
  pub resolve_all-Resolves :
      (c : LaunchConfig) (b : Box V)
      → (resolve_all V c b).0 ≡ none
      → All (EachField (Resolves V (resolve_all V c b).1)) (sections_of c)
  unfolding resolve_all
  resolve_all-Resolves c b h = resolve_each-Resolves (sections_of c) b h
