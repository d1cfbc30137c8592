-- ===== src/Config/Resolved.antt =====
-- config/section.go: what a section that was resolved once can be relied on for.
use ranke_db.Base.{
  ◌≡◌, refl, sym, ap, ◌∙◌, inl, inr, none, some, [], Text, text, Result, ok, err, Option-cases,
}
use mathlib.Core.Path.{subst}
use ranke_db.Config.{
  Value, Fields, Elements, string, null, literal, object, array, no_fields, field, no_elements,
  element,
}
use ranke_db.Config.Secrets.{VaultPort, Box, ResolveError, secret, reference, resolve_value}
use ranke_db.Config.Cache.{Has, Grows, secret-Grows, secret_known, secret-Has}
use ranke_db.Config.Strings.{Each, EachField, EachElement, Each-map, EachField-map}
use ranke_db.Config.Sections.{
  Checked, and_then, discarded, resolve_fields, resolve_one, resolve_elements,
}

module _ (V : VaultPort) where
  -- a text resolves from now on, whatever becomes of the vault
  pub record Resolves (d : Box V) (t : Text) : Type 0 where
    pub ever : (b : Box V) → Grows V d b → (v : Text) × ((resolve_value V t b).0 ≡ ok v)

  Resolves-Grows : (d e : Box V) (t : Text) → Grows V d e → Resolves d t → Resolves e t
  Resolves-Grows d e t g r = record { ever = λ b h. r.ever b (λ ref k. h ref (g ref k)) }

  resolve_value-Grows : (t : Text) (b : Box V) → Grows V b (resolve_value V t b).1
  unfolding resolve_value
  resolve_value-Grows t b j h = elim (Option-cases (reference (text "env(") t)) [
    | inr (name, e) ↦ rw (e, resolve_value) h
    | inl e ↦ elim (Option-cases (reference (text "vault(") t)) [
      | inl f ↦ rw (e, resolve_value) (rw (f) h)
      | inr (ref, f) ↦ rw (e, resolve_value) (rw (f) (secret-Grows V ref b j h))
    ]
  ]

  at_vault :
      (t ref : Text) (b : Box V)
      → reference (text "env(") t ≡ none
      → reference (text "vault(") t ≡ some ref
      → resolve_value V t b ≡ secret V ref b
  unfolding resolve_value
  at_vault t ref b e f = rw (e, resolve_value) (rw (f) refl)

  secret_ever : (ref : Text) (b : Box V) → Has V ref b → (v : Text) × ((secret V ref b).0 ≡ ok v)
  secret_ever ref b (c, h) = elim (secret_known V ref b c h) [
    | inl k ↦ (c.val, ap (λ (o : Result (ResolveError V) Text × Box V). o.0) k.1)
    | inr k ↦ k.1
  ]

  resolve_value-Resolves :
      (t v : Text) (b : Box V) → (resolve_value V t b).0 ≡ ok v → Resolves (resolve_value V t b).1 t
  unfolding resolve_value
  resolve_value-Resolves t v b h = elim (Option-cases (reference (text "env(") t)) [
    | inr (name, e) ↦ record {
      ever = λ d g.
          let same : (resolve_value V t d).0 ≡ (resolve_value V t b).0 =
            rw (e, resolve_value) refl in
          (v, same ∙ h);
    }
    | inl e ↦ elim (Option-cases (reference (text "vault(") t)) [
      | inl f ↦ record { ever = λ d g. (t, rw (e, resolve_value) (rw (f) refl)) }
      | inr (ref, f) ↦ record {
        ever = λ d g.
            let grown =
              subst (λ (c : Result (ResolveError V) Text × Box V). Grows V c.1 d)
                (at_vault t ref b e f) g in
            let known = secret-Has V ref v b (
              ap (λ (c : Result (ResolveError V) Text × Box V). c.0) (sym (at_vault t ref b e f))
              ∙ h) in
            let (w, k) = secret_ever ref d (grown ref known) in
            (w, ap (λ (c : Result (ResolveError V) Text × Box V). c.0) (at_vault t ref d e f) ∙ k);
      }
    ]
  ]

  pub and_then-none :
      (o : Checked V) (f : Box V → Checked V)
      → (and_then V o f).0 ≡ none
      → (o.0 ≡ none) × (and_then V o f ≡ f o.1)
  and_then-none (none, b) f h = (refl, refl)
  and_then-none (some e, b) f h = cc

  pub and_then-Grows :
      (b : Box V) (o : Checked V) (f : Box V → Checked V)
      → Grows V b o.1
      → ((d : Box V) → Grows V d (f d).1)
      → Grows V b (and_then V o f).1
  and_then-Grows b (none, d) f g k j h = k d j (g j h)
  and_then-Grows b (some e, d) f g k j h = g j h

  discarded_box : (o : Result (ResolveError V) Text × Box V) → (discarded V o).1 ≡ o.1
  discarded_box (ok v, b) = refl
  discarded_box (err e, b) = refl

  discarded-none :
      (o : Result (ResolveError V) Text × Box V)
      → (discarded V o).0 ≡ none
      → (v : Text) × (o.0 ≡ ok v)
  discarded-none (ok v, b) h = (v, refl)
  discarded-none (err e, b) h = cc

  leaf-Grows : (t : Text) (b : Box V) → Grows V b (discarded V (resolve_value V t b)).1
  leaf-Grows t b =
      subst (Grows V b) (sym (discarded_box (resolve_value V t b))) (resolve_value-Grows t b)

  mutual
    unfolding resolve_fields

    one-Grows : (v : Value) (b : Box V) → Grows V b (resolve_one V v b).1
    one-Grows (string s) b = leaf-Grows s b
    one-Grows null b = leaf-Grows [] b
    one-Grows (literal t) b = λ j h. h
    one-Grows (object fs) b = fields-Grows fs b
    one-Grows (array es) b = elements-Grows es b

    pub fields-Grows : (fs : Fields) (b : Box V) → Grows V b (resolve_fields V fs b).1
    fields-Grows no_fields b = λ j h. h
    fields-Grows (field k v fs) b =
        and_then-Grows b (resolve_one V v b) (resolve_fields V fs) (one-Grows v b) (fields-Grows fs)

    elements-Grows : (es : Elements) (b : Box V) → Grows V b (resolve_elements V es b).1
    elements-Grows no_elements b = λ j h. h
    elements-Grows (element (object fs) es) b =
        and_then-Grows b (resolve_fields V fs b) (resolve_elements V es) (fields-Grows fs b)
          (elements-Grows es)
    elements-Grows (element v es) b = elements-Grows es b

  pub later : (d e : Box V) → Grows V d e → (t : Text) → Resolves d t → Resolves e t
  later d e g t = Resolves-Grows d e t g

  leaf-Resolves :
      (t : Text) (b : Box V)
      → (discarded V (resolve_value V t b)).0 ≡ none
      → Resolves (discarded V (resolve_value V t b)).1 t
  leaf-Resolves t b h =
      let (v, k) = discarded-none (resolve_value V t b) h in
      subst (λ d. Resolves d t) (sym (discarded_box (resolve_value V t b)))
        (resolve_value-Resolves t v b k)

  mutual
    unfolding resolve_fields Each

    one-Resolves :
        (v : Value) (b : Box V)
        → (resolve_one V v b).0 ≡ none
        → Each (Resolves (resolve_one V v b).1) v
    one-Resolves (string s) b h = leaf-Resolves s b h
    one-Resolves null b h = leaf-Resolves [] b h
    one-Resolves (literal t) b h = tt
    one-Resolves (object fs) b h = resolve_fields-Resolves fs b h
    one-Resolves (array es) b h = elements-Resolves es b h

    -- Once a section has been resolved without an error, every string in it, however deep, resolves
    -- from then on, with the cache that the pass left or any that has grown from it: even if the
    -- vault can no longer be reached.
    pub resolve_fields-Resolves :
        (fs : Fields) (b : Box V)
        → (resolve_fields V fs b).0 ≡ none
        → EachField (Resolves (resolve_fields V fs b).1) fs
    resolve_fields-Resolves no_fields b h = tt
    resolve_fields-Resolves (field k v fs) b h =
        let o = resolve_one V v b in
        let (n, e) = and_then-none o (resolve_fields V fs) h in
        let rest = resolve_fields-Resolves fs o.1 (sym (ap (λ (c : Checked V). c.0) e) ∙ h) in
        subst (λ (c : Checked V). Each (Resolves c.1) v × EachField (Resolves c.1) fs) (sym e)
          (
            Each-map (Resolves o.1) (Resolves (resolve_fields V fs o.1).1)
                (later o.1 (resolve_fields V fs o.1).1 (fields-Grows fs o.1)) v
                (one-Resolves v b n),
            rest,
          )

    elements-Resolves :
        (es : Elements) (b : Box V)
        → (resolve_elements V es b).0 ≡ none
        → EachElement (Resolves (resolve_elements V es b).1) es
    elements-Resolves no_elements b h = tt
    elements-Resolves (element (object fs) es) b h =
        let o = resolve_fields V fs b in
        let (n, e) = and_then-none o (resolve_elements V es) h in
        let rest = elements-Resolves es o.1 (sym (ap (λ (c : Checked V). c.0) e) ∙ h) in
        subst (λ (c : Checked V). EachField (Resolves c.1) fs × EachElement (Resolves c.1) es)
          (sym e)
          (
            EachField-map (Resolves o.1) (Resolves (resolve_elements V es o.1).1)
                (later o.1 (resolve_elements V es o.1).1 (elements-Grows es o.1)) fs
                (resolve_fields-Resolves fs b n),
            rest,
          )
    elements-Resolves (element v es) b h = elements-Resolves es b h
