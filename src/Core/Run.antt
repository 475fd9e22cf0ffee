-- ===== src/Core/Run.antt =====
-- internal/core/run.go: the record of a recovery run and its states.
use restorelab.Prelude.{
  ℕ, Bool, true, false, ◌&&◌, String, Option, List, [], ◌∷◌, ltb, if◌then◌else◌,
}
use restorelab.Core.Check.{CheckResult, is_ok}
use restorelab.Core.Errors.{Error}
use restorelab.Core.Proof.{ProofLevel}
use restorelab.Core.Types.{Backup}

-- `unset` is the empty string, which no state of a run is.
pub data RunState : Type 0 where
  unset queued discovering_backup preparing restoring starting : RunState
  waiting_for_guest running_checks generating_report cleaning_up : RunState
  success failed cancelled cleanup_failed inconclusive : RunState

-- `Terminal`
unfoldable pub terminal : RunState → Bool
terminal RunState.success = true
terminal RunState.failed = true
terminal RunState.cancelled = true
terminal RunState.cleanup_failed = true
terminal RunState.inconclusive = true
terminal _ = false

pub data StepStatus : Type 0 where
  pending running done failed skipped : StepStatus

pub data RunResult : Type 0 where
  success degraded failed : RunResult

-- The names of engine.go: `StepDiscoverBackup` to `StepCleanup`.
pub data StepName : Type 0 where
  discover_backup prepare_environment restore start wait_for_guest run_checks cleanup : StepName

-- The message, a text for the reader, and the details are left out.
pub record Step : Type 0 where
  pub name : StepName
  pub state : RunState
  pub status : StepStatus
  pub started_at : ℕ
  pub completed_at : ℕ
  pub duration : ℕ
  pub err : Option Error

-- `result` is `none` for the empty string.
pub record RecoveryRun : Type 0 where
  pub id : String
  pub plan_name : String
  pub plan_id : String
  pub plan_version : ℕ
  pub provider_id : String
  pub backup_provider_id : String
  pub source_workload_id : String
  pub source_name : String
  pub temp_workload_id : String
  pub temp_name : String
  pub node : String
  pub backup : Option Backup
  pub state : RunState
  pub result : Option RunResult
  pub proof_level : ProofLevel
  pub started_at : ℕ
  pub completed_at : ℕ
  pub steps : List Step
  pub checks : List CheckResult
  pub rto : ℕ
  pub rto_target : ℕ
  pub cleanup_done : Bool
  pub err : Option Error

-- `RTOExceeded`
unfoldable pub rto_exceeded : RecoveryRun → Bool
rto_exceeded r = ltb 0 r.rto_target && ltb r.rto_target r.rto

-- `FailedChecks`
unfoldable pub failed_checks : List CheckResult → List CheckResult
failed_checks [] = []
failed_checks (c ∷ cs) = let rest = failed_checks cs in if is_ok c then rest else c ∷ rest
