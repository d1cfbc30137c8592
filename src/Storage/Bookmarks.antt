-- ===== src/Storage/Bookmarks.antt =====
-- adapters/storage/bookmarks.go: what is said of a storage tree that holds no bookmarks. The texts of
-- its remedies are constructors.
use ranke_db.Base.{
  ◌≡◌, ◌⊎◌, refl, inl, inr, Bool, true, false, Option, none, some, List, ◌++◌, map, Text, text,
  text_eq, Result, ok, err, if◌then◌else◌, bind-eq-ok, Result-cases,
}
use ranke_db.Storage.{Unresolved, Section, Layer, type_of, describe}

-- the remedy, by the composition
pub data Remedy : Type 0 where
  authoritative_layer every_shard another_backend : Remedy

pub data BookmarksError : Type 0 where
  undescribed untyped : Unresolved → BookmarksError
  no_bookmarks : List Text → Remedy → BookmarksError

-- the body of the loop of `CheckBookmarks`
unfoldable pub label : Layer → Text
label l = if text_eq l.name l.kind then l.kind else l.name ++ (text " (" ++ (l.kind ++ text ")"))

-- the switch of `CheckBookmarks`
unfoldable pub remedy : Text → Remedy
remedy kind =
    if text_eq kind (text "stack")
    then authoritative_layer
    else if text_eq kind (text "partition")
    then every_shard
    else another_backend

-- what `CheckBookmarks` says of a tree that holds none, from its layers and its type
abbrev pub said_of : Result Unresolved (List Layer) → Result Unresolved Text → BookmarksError
said_of (err e) kind = undescribed e
said_of (ok ls) (err e) = untyped e
said_of (ok ls) (ok kind) = no_bookmarks (map label ls) (remedy kind)

-- `CheckBookmarks`, given whether the universe reports bookmarks, none where there is no universe
unfoldable pub check_bookmarks : Section → Option Bool → Option BookmarksError
check_bookmarks sec none = none
check_bookmarks sec (some true) = none
check_bookmarks sec (some false) = some (said_of (describe sec) (type_of sec.values))

describe-type_of :
    (sec : Section) (ls : List Layer)
    → describe sec ≡ ok ls
    → (kind : Text) × (type_of sec.values ≡ ok kind)
unfolding describe
describe-type_of sec ls h = let (kind, k, _) = bind-eq-ok (type_of sec.values) _ h in (kind, k)

-- A tree without bookmarks is refused with the reason that its layers cannot be described, or by the
-- label of every layer that it describes and the remedy of its type, which then resolves.
pub check_bookmarks-refused :
    (sec : Section)
    → ((e : Unresolved) × (describe sec ≡ err e)
        × (check_bookmarks sec (some false) ≡ some (undescribed e)))
      ⊎ ((ls : List Layer) × (kind : Text) × (describe sec ≡ ok ls)
          × (type_of sec.values ≡ ok kind)
          × (check_bookmarks sec (some false) ≡ some (no_bookmarks (map label ls) (remedy kind))))
unfolding check_bookmarks
check_bookmarks-refused sec = elim (Result-cases (describe sec)) [
  | inl (e, h) ↦ inl (e, h, rw (h) refl)
  | inr (ls, h) ↦
      let (kind, k) = describe-type_of sec ls h in inr (ls, kind, h, k, rw (h) (rw (k) refl))
]
