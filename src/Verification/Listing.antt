-- ===== src/Verification/Listing.antt =====
-- The listing of the runs, latest start first.
use ranke_db.Base.{
  ◌≤◌, ◌≡◌, refl, sym, some, List, [], ◌∷◌, ◌++◌, map, Text, text_eq_iff, text_eq_refl, All, arith,
}
use mathlib.Core.List.{reverse, reverse-cons}
use ranke_db.Base.Dict.{Dict, lookup, insert, lookup-insert}
use ranke_db.Base.Keys.{count, count-append, keys}
use ranke_db.Verification.Lifecycle.{lookup_put}
use ranke_db.Verification.{Run, list, reports_of}
use ranke_db.Verification.Steps.{System, IsSound}

-- The entries of one dictionary as they read in another.
abbrev Looks : Dict Run → Dict Run → Type 0
Looks m = All (λ (e : Text × Run). lookup e.0 m ≡ some e.1)

Looks-cons :
    (k : Text) (v : Run) (m es : Dict Run)
    → count k (keys es) ≡ 0
    → Looks m es
    → Looks ((k, v) ∷ m) es
unfolding lookup keys count
Looks-cons k v m [] c h = tt
Looks-cons k v m ((j, u) ∷ es) c h =
    (ground (arith, text_eq_iff k j, text_eq_iff j k, h.0), Looks-cons k v m es (ground arith) h.1)

Looks-self : (m : Dict Run) → ((id : Text) → count id (keys m) ≤ 1) → Looks m m
unfolding lookup keys count
Looks-self [] c = tt
Looks-self ((k, v) ∷ m) c = (
  ground (arith, text_eq_refl k),
  Looks-cons k v m m (ground (arith, c k, text_eq_refl k))
      (Looks-self m (λ id. ground (arith, c id))),
)

reports_of-append :
    (m : Dict Run) (ids more : List Text)
    → reports_of m (ids ++ more) ≡ reports_of m ids ++ reports_of m more
unfolding reports_of
reports_of-append m [] more = refl
reports_of-append m (id ∷ ids) more = ground (arith, reports_of-append m ids more)

reports_of-reverse :
    (m es : Dict Run)
    → Looks m es
    → reports_of m (reverse (keys es)) ≡ reverse (map (λ e. e.1.report) es)
unfolding reports_of keys
reports_of-reverse m [] h = refl
reports_of-reverse m ((k, v) ∷ es) h = rw (reverse-cons k (keys es)) (
    rw (reverse-cons v.report (map (λ (e : Text × Run). e.1.report) es)) (
      rw (reports_of-append m (reverse (keys es)) (k ∷ []))
        (rw (reports_of-reverse m es h.1) (ground (arith, h.0)))))

-- In a sound registry the listing holds the report of each retained run once, the latest start
-- first.
pub list_lem :
    (s : System)
    → IsSound s
    → list s.registry ≡ reverse (map (λ (e : Text × Run). e.1.report) s.registry.runs)
unfolding list
list_lem s h = rw (sym h.same_ids) (
    reports_of-reverse s.registry.runs s.registry.runs
      (Looks-self s.registry.runs (λ id. rw h.same_ids (omega (arith, h.once id)))))

reports_of-insert_new :
    (id : Text) (held : Run) (m : Dict Run) (ids : List Text)
    → count id ids ≡ 0
    → reports_of (insert id held m) ids ≡ reports_of m ids
unfolding reports_of count
reports_of-insert_new id held m [] c = refl
reports_of-insert_new id held m (j ∷ ids) c = ground (
  arith,
  text_eq_iff id j,
  text_eq_iff j id,
  lookup-insert id j held m,
  reports_of-insert_new id held m ids,
)

pub count-reverse : (k : Text) (ids : List Text) → count k (reverse ids) ≡ count k ids
unfolding count
count-reverse k [] = refl
count-reverse k (id ∷ ids) =
    rw (reverse-cons id ids)
      (ground (arith, count-append k (reverse ids) (id ∷ []), count-reverse k ids))

pub listed_first :
    (id : Text) (held : Run) (m : Dict Run) (ids : List Text)
    → count id ids ≡ 0
    → reports_of (insert id held m) (id ∷ ids) ≡ held.report ∷ reports_of m ids
unfolding reports_of
listed_first id held m ids c =
    ground (arith, lookup_put id held m, reports_of-insert_new id held m ids c)
