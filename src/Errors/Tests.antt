-- ===== src/Errors/Tests.antt =====
-- Failures at concrete inputs.
use ranke_db.Base.{◌≡◌, refl, none, [], ◌∷◌}
use ranke_db.Errors.{Sentinel, Fault, Category, categorize}

-- a branch that is missing, as the library reports it
abbrev missing : Fault
missing = record { chain = Sentinel.lib_branch_not_found ∷ Sentinel.lib_not_found ∷ [] }

no_error : categorize none ≡ Category.no_category
unfolding categorize
no_error = refl
