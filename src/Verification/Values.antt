-- ===== src/Verification/Values.antt =====
-- internal/core/domain.go: the values of a verification run, and what the library hands back of one.
use ranke_db.Base.{ℕ, Bool, true, false, Option, List, Text}

pub data RunStatus : Type 0 where
  running complete stopped error : RunStatus

pub record Config : Type 0 where
  pub closure : Text
  pub layer : Text
  pub depth : Text
  pub content_threshold : ℕ

pub record Failure : Type 0 where
  pub id : Text
  pub mode : Text
  pub layer : Text
  pub detail : Text

pub record Report : Type 0 where
  pub id : Text
  pub config : Config
  pub head : Text
  pub status : RunStatus
  pub started_at : ℕ
  pub completed_at : Option ℕ  -- the zero time while the run is running
  pub claims_checked : ℕ
  pub passed : Bool  -- `OK`
  pub failures : List Failure

-- the library's `Failure`: an id and an error, either of which may be nil
pub record LibFailure : Type 0 where
  pub id : Option Text
  pub detail : Option Text

-- the library's `VerificationRun` when its walk is done
pub record Handle : Type 0 where
  pub verified : ℕ
  pub failures : List LibFailure
  pub failed : Bool

abbrev pub is_running : RunStatus → Bool
is_running running = true
is_running _ = false
