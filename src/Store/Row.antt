-- ===== src/Store/Row.antt =====
-- The rows of the table `runs`: the columns that internal/store/queue.go and runs.go write, and
-- `QueuedRun` of internal/store/store.go. An instant is a number, as the store compares it.
use restorelab.Prelude.{ℕ, ◌≡◌, refl, Bool, true, false, String, Option, none, some}
use restorelab.Core.Run.{RunState, RunResult, terminal}
use restorelab.Core.Types.{Backup}
use restorelab.Core.Proof.{ProofLevel}

pub record Row : Type 0 where
  pub id : String
  pub plan_name : String
  pub plan_snapshot : String
  pub plan_id : Option String
  pub plan_version : Option ℕ
  pub provider_id : String
  pub backup_provider_id : Option String
  pub source_workload_id : String
  pub source_name : Option String
  pub temp_workload_id : Option String
  pub temp_name : Option String
  pub node : Option String
  pub backup : Option Backup
  pub state : RunState
  pub result : Option RunResult
  pub started_at : ℕ
  pub completed_at : Option ℕ
  pub queued_at : Option ℕ
  pub rto_ms : ℕ
  pub rto_target_ms : ℕ
  pub cleanup_done : Bool
  pub err : Option String
  pub proof_level : ProofLevel
  pub cancel_requested_at : Option ℕ
  pub lease_owner : Option String
  pub lease_expires_at : Option ℕ
  pub notified_at : Option ℕ

pub record QueuedRun : Type 0 where
  pub id : String
  pub plan_name : String
  pub provider_id : String
  pub backup_provider_id : String
  pub source_workload_id : String
  pub plan_snapshot : String
  pub queued_at : Option ℕ

abbrev pub or_empty : Option String → String
or_empty none = ""
or_empty (some s) = s

-- `scanQueuedRun`
abbrev pub scan_queued_run : Row → QueuedRun
scan_queued_run r = record {
  id = r.id;
  plan_name = r.plan_name;
  provider_id = r.provider_id;
  backup_provider_id = or_empty r.backup_provider_id;
  source_workload_id = r.source_workload_id;
  plan_snapshot = r.plan_snapshot;
  queued_at = r.queued_at;
}

abbrev pub is_null {ℓ} : {A : Type ℓ} → Option A → Bool
is_null none = true
is_null (some _) = false

abbrev pub is_queued : RunState → Bool
is_queued RunState.queued = true
is_queued _ = false

-- `terminalStates`, the list that stands for `Terminal` in SQL.
abbrev pub in_terminal_states : RunState → Bool
in_terminal_states RunState.success = true
in_terminal_states RunState.failed = true
in_terminal_states RunState.cancelled = true
in_terminal_states RunState.cleanup_failed = true
in_terminal_states RunState.inconclusive = true
in_terminal_states _ = false

-- The list of the SQL statements and the method of core agree.
pub in_terminal_states-terminal : (s : RunState) → in_terminal_states s ≡ terminal s
unfolding terminal
in_terminal_states-terminal RunState.unset = refl
in_terminal_states-terminal RunState.queued = refl
in_terminal_states-terminal RunState.discovering_backup = refl
in_terminal_states-terminal RunState.preparing = refl
in_terminal_states-terminal RunState.restoring = refl
in_terminal_states-terminal RunState.starting = refl
in_terminal_states-terminal RunState.waiting_for_guest = refl
in_terminal_states-terminal RunState.running_checks = refl
in_terminal_states-terminal RunState.generating_report = refl
in_terminal_states-terminal RunState.cleaning_up = refl
in_terminal_states-terminal RunState.success = refl
in_terminal_states-terminal RunState.failed = refl
in_terminal_states-terminal RunState.cancelled = refl
in_terminal_states-terminal RunState.cleanup_failed = refl
in_terminal_states-terminal RunState.inconclusive = refl
