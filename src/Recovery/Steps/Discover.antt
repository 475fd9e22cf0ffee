-- ===== src/Recovery/Steps/Discover.antt =====
-- `resolveSourceName`, `discoverBackup` and `resolveBackup` of internal/recovery/steps.go.
use restorelab.Prelude.{
  ◌-◌, String, Option, none, some, List, [], ◌∷◌, not, ltb, str_eq, if◌then◌else◌,
}
use restorelab.Core.Errors.{no_backup, stale_backup}
use restorelab.Core.Run.{RunState, StepStatus, StepName, RecoveryRun}
use restorelab.Core.Types.{Workload, Backup}
use restorelab.Plan.{Plan, BackupStrategy, specific}
use restorelab.Recovery.Engine.{
  Engine, Query, M, query, ◌>>=◌, ◌>>◌, pure, raise, on_error, call, current_run, modify_run, clock,
  begin_step, end_step, or_fail,
}

abbrev pub adopt_source : Workload → RecoveryRun → RecoveryRun
adopt_source w r = record r {
  source_name = if not (str_eq w.name "") then w.name else r.source_name;
  node = if str_eq r.node "" then w.node else r.node;
}

-- Best effort: an error is dropped.
unfoldable pub resolve_source_name : {e : Engine} → M e (Unit {0})
resolve_source_name {e} = do
  run ← current_run
  on_error
      (do
        w ← call (λ _. query Query.get_workload) (e.get_workload run.source_workload_id)
        modify_run (adopt_source w))
      (λ _. pure tt)

unfoldable pub find_backup : String → List Backup → Option Backup
find_backup id [] = none
find_backup id (b ∷ bs) = if str_eq b.id id then some b else find_backup id bs

abbrev pub found_or_no_backup : {e : Engine} → Option Backup → M e Backup
found_or_no_backup none = raise no_backup
found_or_no_backup (some b) = pure b

abbrev pub by_strategy : {e : Engine} → BackupStrategy → Plan → M e Backup
by_strategy {e} specific p = do
  backups ← call (λ _. query Query.list_backups) (e.list_backups p.workload.id)
  found_or_no_backup (find_backup p.backup.id backups)
by_strategy {e} _ p = call (λ _. query Query.get_latest_backup) (e.get_latest_backup p.workload.id)

unfoldable pub resolve_backup : {e : Engine} → Plan → M e Backup
resolve_backup p = by_strategy p.backup.strategy p

-- The test against `max_age`, which is off at zero.
unfoldable pub check_age : {e : Engine} → Plan → Backup → M e (Unit {0})
check_age p backup =
    if ltb 0 p.backup.max_age
    then (do
      now ← clock
      if ltb p.backup.max_age (now - backup.created_at)
          then raise (stale_backup (now - backup.created_at) p.backup.max_age)
          else pure tt)
    else pure tt

unfoldable pub discover_backup : {e : Engine} → Plan → M e (Unit {0})
discover_backup p = do
  index ← begin_step StepName.discover_backup RunState.discovering_backup
  resolve_source_name
  backup ← or_fail StepName.discover_backup RunState.discovering_backup index (resolve_backup p)
  or_fail StepName.discover_backup RunState.discovering_backup index (check_age p backup)
  modify_run (λ r. record r { backup = some backup })
  end_step StepName.discover_backup RunState.discovering_backup index StepStatus.done none
