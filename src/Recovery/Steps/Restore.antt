-- ===== src/Recovery/Steps/Restore.antt =====
-- `restoreWorkload` and `startWorkload` of internal/recovery/steps.go.
use restorelab.Prelude.{ℕ, ◌*◌, true, false, String, Option, none, some, if◌then◌else◌}
use restorelab.Core.Errors.{restore_failed}
use restorelab.Core.Run.{RunState, StepStatus, StepName}
use restorelab.Core.Types.{Backup, RestoreOptions, TaskState}
use restorelab.Plan.{Plan, second}
use restorelab.Recovery.Naming.{first_non_empty}
use restorelab.Recovery.Engine.{
  Engine, Reply, RunOptions, Query, Entry, M, ok, panic, query, is_answered, ◌>>=◌, ◌>>◌, pure,
  raise, call, current_run, begin_step, end_step, or_fail,
}
use restorelab.Recovery.Steps.Retry.{retry}
use restorelab.Recovery.Steps.Prepare.{Prepared}

abbrev pub restore_options : Plan → RunOptions → Prepared → RestoreOptions
restore_options p opts prep = record {
  target_workload_id = prep.temp_id;
  name = prep.temp_name;
  node = prep.node;
  storage = first_non_empty opts.storage p.restore.storage;
  pool = first_non_empty opts.pool p.restore.pool;
  network = opts.network;
  cpu_limit = p.restore.cpu_limit;
  memory_limit_mb = p.restore.memory_limit_mb;
  bandwidth_kibps = p.restore.bandwidth_kibps;
  start = false;
  metadata = prep.metadata;
}

-- `*run.Backup`, a panic at nil.
abbrev pub the_backup : {e : Engine} → Option Backup → M e Backup
the_backup none s = (panic "nil pointer dereference", s)
the_backup (some b) s = (ok b, s)

-- `*needsCleanup = true`
unfoldable pub mark_created : {e : Engine} → M e (Unit {0})
mark_created s = (ok tt, record s { needs_cleanup = true })

-- A task that is missing or that did not succeed fails the step.
abbrev pub check_task : {e : Engine} → Option TaskState → M e (Unit {0})
check_task none = raise (restore_failed "restore task reported failure")
check_task (some t) =
    if t.success
    then pure tt
    else raise (restore_failed (first_non_empty t.message "restore task reported failure"))

abbrev pub FinalizeRestore : Engine → Type 0
FinalizeRestore e = Option (RestoreOptions → e.World → Reply (Unit {0}) × e.World)

-- The hardening pass, where the provider has one.
abbrev pub harden : {e : Engine} → FinalizeRestore e → RestoreOptions → M e (Unit {0})
harden none options = pure tt
harden (some fin) options = call (λ r. Entry.finalize options (is_answered r)) (fin options)

-- What stands behind an accepted restore: the wait for the job and the hardening.
unfoldable pub settle_restore : {e : Engine} → e.Job → RestoreOptions → ℕ → M e (Unit {0})
settle_restore {e} job options index = do
  task ←
      or_fail StepName.restore RunState.restoring index
        (retry 3 (2 * second) (call (λ _. query Query.wait_for_job) (e.wait_for_job job)))
  or_fail StepName.restore RunState.restoring index (check_task task)
  or_fail StepName.restore RunState.restoring index (harden e.finalize_restore options)
  end_step StepName.restore RunState.restoring index StepStatus.done none

unfoldable pub restore_workload : {e : Engine} → Plan → RunOptions → Prepared → M e (Unit {0})
restore_workload {e} p opts prep = do
  index ← begin_step StepName.restore RunState.restoring
  run ← current_run
  backup ← the_backup run.backup
  job ← or_fail StepName.restore RunState.restoring index (
      call (λ r. Entry.restore (restore_options p opts prep) (is_answered r))
        (e.restore backup (restore_options p opts prep)))
  mark_created
  settle_restore job (restore_options p opts prep) index

unfoldable pub start_workload : {e : Engine} → Plan → String → M e (Unit {0})
start_workload {e} p temp_id = do
  index ← begin_step StepName.start RunState.starting
  if p.startup.skip
      then end_step StepName.start RunState.starting index StepStatus.skipped none
      else do
        or_fail StepName.start RunState.starting index (
            retry 3 (2 * second)
              (call (λ r. Entry.start temp_id (is_answered r)) (e.start temp_id)))
        end_step StepName.start RunState.starting index StepStatus.done none
