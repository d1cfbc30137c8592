-- ===== src/Sequencer.antt =====
-- adapters/sequencer/sequencer.go: the bookmark list that the sequencer's section names. A section is
-- its leaf values by key, each with what resolving it gives; the library's `ParseId` is a parameter.
mod Tests
use ranke_db.Base.{
  ◌≡◌, ◌≢◌, ◌↔◌, refl, sym, ◌∙◌, Bool, true, false, Option, none, some, [], ◌∷◌, Text, text, Result,
  ok, err, arith,
}
use ranke_db.Base.Dict.{Dict, lookup}
use ranke_db.Storage.{Unresolved, absent, has_value, get}

-- the library's locator of a list, by its two constructors
pub data Locator (Entry : Type 0) : Type 0 where
  seed : Text → Locator Entry
  at : Entry → Locator Entry

pub data ListError : Type 0 where
  both_keys neither_key empty_seed malformed_bookmark : ListError
  seed_unresolved bookmark_unresolved : Unresolved → ListError

module _ {Entry : Type 0} (parse_id : Text → Option Entry) where
  abbrev pub from_seed : Result Unresolved Text → Result ListError (Locator Entry)
  from_seed (err e) = err (seed_unresolved e)
  from_seed (ok []) = err empty_seed
  from_seed (ok (c ∷ s)) = ok (seed (c ∷ s))

  abbrev pub parsed : Option Entry → Result ListError (Locator Entry)
  parsed none = err malformed_bookmark
  parsed (some id) = ok (at id)

  abbrev pub from_bookmark : Result Unresolved Text → Result ListError (Locator Entry)
  from_bookmark (err e) = err (bookmark_unresolved e)
  from_bookmark (ok raw) = parsed (parse_id raw)

  -- the switch of `bookmarkList`, on whether the section has a seed and a bookmark and on what they
  -- resolve to
  abbrev pub by_keys :
      Bool
      → Bool
      → Result Unresolved Text
      → Result Unresolved Text
      → Result ListError (Locator Entry)
  by_keys true true s b = err both_keys
  by_keys false false s b = err neither_key
  by_keys true false s b = from_seed s
  by_keys false true s b = from_bookmark b

  -- `bookmarkList`
  unfoldable pub bookmark_list : Dict (Result Unresolved Text) → Result ListError (Locator Entry)
  bookmark_list values =
      by_keys (has_value values (text "seed")) (has_value values (text "bookmark"))
        (get values (text "seed")) (get values (text "bookmark"))

  -- The keys name a locator: the seed, which is not empty, where there is no bookmark, or a bookmark
  -- that can be read where there is no seed.
  abbrev Pins :
      Option (Result Unresolved Text) → Option (Result Unresolved Text) → Locator Entry → Type 0
  Pins s b (seed t) = (t ≢ []) × (s ≡ some (ok t)) × (b ≡ none)
  Pins s b (at id) = (s ≡ none) × ((raw : Text) × (b ≡ some (ok raw)) × (parse_id raw ≡ some id))

  abbrev pub Names : Dict (Result Unresolved Text) → Locator Entry → Type 0
  Names values l = Pins (lookup (text "seed") values) (lookup (text "bookmark") values) l

  abbrev is_set : Option (Result Unresolved Text) → Bool
  is_set none = false
  is_set (some _) = true

  abbrev got : Option (Result Unresolved Text) → Result Unresolved Text
  got none = err absent
  got (some v) = v

  abbrev chosen :
      Option (Result Unresolved Text)
      → Option (Result Unresolved Text)
      → Result ListError (Locator Entry)
  chosen s b = by_keys (is_set s) (is_set b) (got s) (got b)

  has_value-set :
      (values : Dict (Result Unresolved Text)) (key : Text)
      → has_value values key ≡ is_set (lookup key values)
  unfolding has_value
  has_value-set values key = same (lookup key values)
    where
      same :
          (o : Option (Result Unresolved Text)) → elim o [ none ↦ false | some _ ↦ true ] ≡ is_set o
      same none = refl
      same (some v) = refl

  get-got :
      (values : Dict (Result Unresolved Text)) (key : Text)
      → get values key ≡ got (lookup key values)
  unfolding get
  get-got values key = same (lookup key values)
    where
      same :
          (o : Option (Result Unresolved Text)) → elim o [ none ↦ err absent | some v ↦ v ] ≡ got o
      same none = refl
      same (some v) = refl

  bookmark_list-chosen :
      (values : Dict (Result Unresolved Text))
      → bookmark_list values
        ≡ chosen (lookup (text "seed") values) (lookup (text "bookmark") values)
  unfolding bookmark_list
  bookmark_list-chosen values = rw (has_value-set values (text "seed")) (
      rw (has_value-set values (text "bookmark"))
        (rw (get-got values (text "seed")) (rw (get-got values (text "bookmark")) refl)))

  parsed-Pins :
      (raw : Text) (o : Option Entry) (l : Locator Entry)
      → parse_id raw ≡ o
      → parsed o ≡ ok l
      → Pins none (some (ok raw)) l
  parsed-Pins raw none l e h = ground (arith, h)
  parsed-Pins raw (some i) (seed t) e h = ground (arith, h)
  parsed-Pins raw (some i) (at id) e h = (refl, (raw, refl, grind (arith, e, h)))

  chosen-Pins :
      (s b : Option (Result Unresolved Text)) (l : Locator Entry) → chosen s b ≡ ok l → Pins s b l
  chosen-Pins none none l h = ground (arith, h)
  chosen-Pins (some s) (some b) l h = ground (arith, h)
  chosen-Pins (some (err e)) none l h = ground (arith, h)
  chosen-Pins (some (ok [])) none l h = ground (arith, h)
  chosen-Pins (some (ok (c ∷ t))) none (seed u) h = ground (arith, h)
  chosen-Pins (some (ok (c ∷ t))) none (at id) h = ground (arith, h)
  chosen-Pins none (some (err e)) l h = ground (arith, h)
  chosen-Pins none (some (ok raw)) l h = parsed-Pins raw (parse_id raw) l refl h

  Pins-chosen :
      (s b : Option (Result Unresolved Text)) (l : Locator Entry) → Pins s b l → chosen s b ≡ ok l
  Pins-chosen s b (seed []) (n, e, f) = ground arith
  Pins-chosen s b (seed (c ∷ t)) (n, e, f) = rw (e) (rw (f) refl)
  Pins-chosen s b (at id) (e, (raw, f, g)) = rw (e) (rw (f) (rw (g) refl))

  -- A section names a list exactly in two ways: a seed that resolves to a text that is not empty and no
  -- bookmark names the list of that seed, and a bookmark that resolves to the text of an id and no seed
  -- names the list at that id.
  pub bookmark_list_iff :
      (values : Dict (Result Unresolved Text)) (l : Locator Entry)
      → (bookmark_list values ≡ ok l) ↔ Names values l
  bookmark_list_iff values l = (
    λ h.
        chosen-Pins (lookup (text "seed") values) (lookup (text "bookmark") values) l
          (sym (bookmark_list-chosen values) ∙ h),
    λ k.
        bookmark_list-chosen values
        ∙ Pins-chosen (lookup (text "seed") values) (lookup (text "bookmark") values) l k,
  )
