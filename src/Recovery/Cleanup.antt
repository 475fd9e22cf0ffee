-- ===== src/Recovery/Cleanup.antt =====
-- internal/recovery/cleanup.go: what becomes of the temporary workload, whatever the drill ended in.
use restorelab.Prelude.{
  ℕ, ◌*◌, Bool, true, false, not, ◌&&◌, ◌||◌, String, Option, none, some, if◌then◌else◌,
}
use restorelab.Core.Errors.{Error, orphaned_workload}
use restorelab.Core.Run.{RunState, RunResult, StepStatus, StepName, RecoveryRun}
use restorelab.Plan.{Plan, second, cleanup_always}
use restorelab.Recovery.Engine.{
  Engine, RunOptions, Entry, M, is_answered, ◌>>=◌, ◌>>◌, pure, raise, on_error, call, gets,
  current_run, modify_run, begin_step, end_step,
}
use restorelab.Recovery.Steps.Retry.{retry}

abbrev pub set_state : RunState → RecoveryRun → RecoveryRun
set_state state r = record r { state = state }

abbrev pub set_cleanup_done : Bool → RecoveryRun → RecoveryRun
set_cleanup_done done r = record r { cleanup_done = done }

-- `recordCleanupSkipped`, and the graded state put back.
unfoldable pub skip_cleanup : {e : Engine} → RunState → M e (Unit {0})
skip_cleanup graded = do
  index ← begin_step StepName.cleanup RunState.cleaning_up
  end_step StepName.cleanup RunState.cleaning_up index StepStatus.skipped none
  modify_run (set_cleanup_done false)
  modify_run (set_state graded)

abbrev pub is_failed_result : Option RunResult → Bool
is_failed_result (some RunResult.failed) = true
is_failed_result _ = false

abbrev pub ended_incomplete : RunState → Bool
ended_incomplete RunState.failed = true
ended_incomplete RunState.cancelled = true
ended_incomplete RunState.inconclusive = true
ended_incomplete _ = false

unfoldable pub incomplete : RecoveryRun → Bool
incomplete r = is_failed_result r.result || ended_incomplete r.state

-- The policies that leave a created workload on the cluster.
unfoldable pub keeps_workload : RunOptions → Plan → RecoveryRun → Bool
keeps_workload opts p r =
    if opts.keep_workload
    then true
    else if incomplete r && p.cleanup.keep_on_failure
    then true
    else not (incomplete r) && not (cleanup_always p.cleanup)

-- The branch of a failed delete: an orphan outranks the verdict.
unfoldable pub report_orphan : {e : Engine} → String → String → ℕ → Error → M e (Unit {0})
report_orphan temp_id node index x = do
  modify_run (λ r. record r {
    cleanup_done = false;
    state = RunState.cleanup_failed;
    err = some (orphaned_workload temp_id node x);
  })
  end_step StepName.cleanup RunState.cleaning_up index StepStatus.failed (some x)
  raise (orphaned_workload temp_id node x)

unfoldable pub confirm_removal : {e : Engine} → RunState → ℕ → M e (Unit {0})
confirm_removal graded index = do
  modify_run (set_cleanup_done true)
  end_step StepName.cleanup RunState.cleaning_up index StepStatus.done none
  modify_run (set_state graded)

-- `Stop` is retried and may fail; `Delete` is made once.
unfoldable pub stop_quietly : {e : Engine} → String → M e (Unit {0})
stop_quietly {e} temp_id =
    on_error
      (retry 3 (2 * second) (call (λ r. Entry.stop temp_id (is_answered r)) (e.stop temp_id)))
      (λ _. pure tt)

unfoldable pub delete_once : {e : Engine} → String → M e (Option Error)
delete_once {e} temp_id =
    on_error (do call (λ r. Entry.delete temp_id (is_answered r)) (e.delete temp_id); pure none)
      (λ x. pure (some x))

abbrev pub after_delete :
    {e : Engine} → String → String → RunState → ℕ → Option Error → M e (Unit {0})
after_delete temp_id node graded index none = confirm_removal graded index
after_delete temp_id node graded index (some x) = report_orphan temp_id node index x

unfoldable pub destroy : {e : Engine} → String → String → RunState → M e (Unit {0})
destroy temp_id node graded = do
  index ← begin_step StepName.cleanup RunState.cleaning_up
  stop_quietly temp_id
  failure ← delete_once temp_id
  after_delete temp_id node graded index failure

unfoldable pub cleanup : {e : Engine} → Plan → RunOptions → M e (Unit {0})
cleanup p opts = do
  created ← gets (λ s. s.needs_cleanup)
  temp_id ← gets (λ s. s.temp_id)
  node ← gets (λ s. s.node)
  run ← current_run
  if not created
      then modify_run (set_cleanup_done true)
      else if keeps_workload opts p run
      then skip_cleanup run.state
      else destroy temp_id node run.state
