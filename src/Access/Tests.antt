-- ===== src/Access/Tests.antt =====
-- Accounts, grants and requests at concrete inputs.
use ranke_db.Base.{
  ◌≡◌, ◌+◌, ◌*◌, ◌↔◌, refl, true, false, ◌&&◌, List, [], ◌∷◌, ◌++◌, Text, text, text_eq, has_prefix,
  fields, is_space, Some, ok, err,
}
use ranke_db.Base.Dict.{lookup, insert}
use ranke_db.Access.Glob.{match_glob, match_branch}
use ranke_db.Access.Glob.Matching.{Reaches, match_branch_iff}
use ranke_db.Access.Grant.{
  Grant, GrantError, universe, read_right, contribute_right, bit, is_reserved, branch_glob,
  add_letters, check_glob, parse_grant, letters_of, print_grant, allows,
}
use ranke_db.Access.Grant.Legal.{IsParsed, parse_grant-IsParsed, LegalGlob, check_glob_iff}
use ranke_db.Access.Grant.RoundTrip.{parse-print, parse_grant-low_byte}
use ranke_db.Access.Checker.{
  Principal, Checker, held, add_specs, add_accounts, new_checker, any_allows, all_allows, allow,
}
use ranke_db.Access.Checker.Built.{specs_of}
use ranke_db.Access.Checker.Policy.{Names, allow-reserved, allow-append}

abbrev writer_spec : Text
writer_spec = text "  UC foo_*"

abbrev writer : Grant
writer = record { rights = 5; glob = text "foo_*" }

writer_parses : parse_grant writer_spec ≡ ok writer
unfolding parse_grant fields is_space add_letters bit check_glob has_prefix branch_glob
writer_parses = refl

parse-print_example : parse_grant (print_grant writer) ≡ ok writer
parse-print_example = parse-print writer_spec writer writer_parses

parse_grant-IsParsed_example : IsParsed writer_spec writer
parse_grant-IsParsed_example = parse_grant-IsParsed writer_spec writer writer_parses

canonical : print_grant writer ≡ text "CU foo_*"
unfolding print_grant letters_of
canonical = refl

check_glob_iff_example :
    (check_glob 2 (text "a?") ≡ ok (record { rights = 2; glob = text "a?" }))
    ↔ LegalGlob 2 (text "a?")
check_glob_iff_example = check_glob_iff 2 (text "a?")

match_branch_iff_example :
    (match_branch (text "foo_*") (text "foo_bar") ≡ true) ↔ Reaches (text "foo_*") (text "foo_bar")
match_branch_iff_example = match_branch_iff (text "foo_*") (text "foo_bar")

globs :
    (match_glob (text "f*_?a*") (text "foo_bar") ≡ true)
    × (match_branch (text "*") universe ≡ false)
    × (match_branch (text "*") (text "a/b") ≡ false)
unfolding match_branch match_glob has_prefix text_eq
globs = (refl, refl, refl)

only_read_on_universe : parse_grant (text "CR $universe") ≡ err GrantError.only_read
unfolding parse_grant fields is_space add_letters bit check_glob has_prefix is_reserved text_eq
only_read_on_universe = refl

-- U+0143 is no right, and is read as `C`.
parse_grant-low_byte_example :
    parse_grant ((67 + 256 * 1) ∷ (text "R" ++ (b' ' ∷ text "main")))
    ≡ parse_grant (67 ∷ (text "R" ++ (b' ' ∷ text "main")))
unfolding is_space
parse_grant-low_byte_example =
    parse_grant-low_byte 67 1 (text "R") (text "main") (record { nonempty = λ e. cc; solid = refl })
      (record { nonempty = λ e. cc; solid = refl }) (record { nonempty = λ e. cc; solid = refl })

abbrev accounts : List (Text × List Text)
accounts =
    (text "webapp", writer_spec ∷ text "R log" ∷ []) ∷ (text "backup", text "R $universe" ∷ []) ∷ []

abbrev checker : Checker
checker = record {
  accounts =
      (text "webapp", writer ∷ record { rights = 2; glob = text "log" } ∷ [])
      ∷ (text "backup", record { rights = 2; glob = universe } ∷ [])
      ∷ [];
}

accounts_build : new_checker accounts ≡ ok checker
unfolding new_checker add_accounts add_specs held lookup insert parse_grant fields is_space
    add_letters bit check_glob has_prefix is_reserved branch_glob text_eq
accounts_build = refl

abbrev backup : Principal
backup = record { account = text "backup"; caveats = [] }

backup_reads : allow checker backup read_right universe ≡ true
unfolding allow held lookup any_allows all_allows allows bit match_branch has_prefix text_eq
backup_reads = refl

allow-reserved_example : Some (Names read_right universe) (specs_of (text "backup") accounts)
allow-reserved_example =
    allow-reserved accounts checker backup read_right universe accounts_build
      (unfold has_prefix in refl) backup_reads

allow-append_example :
    allow checker
      (record { account = text "webapp"; caveats = writer ∷ writer ∷ [] })
      contribute_right
      (text "foo_x")
    ≡ (allow checker
          (record { account = text "webapp"; caveats = writer ∷ [] })
          contribute_right
          (text "foo_x")
        && all_allows (writer ∷ []) contribute_right (text "foo_x"))
allow-append_example =
    allow-append checker (text "webapp") (writer ∷ []) (writer ∷ []) contribute_right (text "foo_x")
