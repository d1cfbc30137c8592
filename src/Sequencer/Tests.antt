-- ===== src/Sequencer/Tests.antt =====
-- A sequencer's section at a concrete input.
use ranke_db.Base.{◌≡◌, ◌↔◌, some, [], ◌∷◌, Text, text, Result, ok}
use ranke_db.Base.Dict.{Dict}
use ranke_db.Storage.{Unresolved}
use ranke_db.Sequencer.{at, bookmark_list, Names, bookmark_list_iff}

-- a section that reopens a list
abbrev reopened : Dict (Result Unresolved Text)
reopened = (text "type", ok (text "dev")) ∷ (text "bookmark", ok (text "b1")) ∷ []

bookmark_list_iff_example :
    (bookmark_list {Entry = Text} (λ s. some s) reopened ≡ ok (at (text "b1")))
    ↔ Names {Entry = Text} (λ s. some s) reopened (at (text "b1"))
bookmark_list_iff_example = bookmark_list_iff {Entry = Text} (λ s. some s) reopened (at (text "b1"))
