-- ===== src/Examples.antt =====
-- Concrete runs of the theorems: a toy cluster that answers every call, and a queue of two runs.
mod Notices
mod Fleet
mod Catalogue
mod Timetable
use mathlib.Core.Bool.{false≢true}
use restorelab.Prelude.{
  ℕ, zero, suc, ◌&&◌, str_eq, ◌+◌, ◌-◌, ◌<◌, ◌≤◌, ◌≡◌, ◌≢◌, refl, ◌⊎◌, inr, true, false, String,
  Option, none, some, List, [], ◌∷◌, All, length, arith, eq_iff,
}
use restorelab.Prelude.Int.{◌≤ℤ◌}
use restorelab.Core.Check.{CheckStatus, check_pass, check_fail}
use restorelab.Core.Proof.{ProofLevel, proof_none, proof_service, proof_data, rank}
use restorelab.Core.Proof.ProvenBy.{ProofCheck, proven_by}
use restorelab.Core.Proof.Join.{Claims, proven_by-greatest}
use restorelab.Core.Errors.{Error}
use restorelab.Core.Run.{RunState, RecoveryRun, terminal}
use restorelab.Core.Types.{Backup, power_running}
use restorelab.Plan.{Plan, latest}
use restorelab.Recovery.Engine.{Engine, RunOptions, Reply, answered, refused}
use restorelab.Recovery.Drill.{run}
use restorelab.Recovery.Protocol.Safety.{
  EndsAs, Accounted, IsTorn, IsKept, verdict, failures, run-Accounted,
}
use restorelab.Recovery.Verdict.Final.{Reported, Nothing, run-Reported}
use restorelab.Store.Row.{Row, QueuedRun, scan_queued_run}
use restorelab.Store.Table.{
  any_where, select_where, count_where, update_where, least, sort_by, insert_by,
}
use restorelab.Store.Queue.{
  queued_row, claim_run, request_cancel, ask_to_stop, enqueue, insert_row, active_run_for_workload,
}
use restorelab.Store.Operations.{Operation, apply_all}
use restorelab.Store.Lease.{claim_run-once}
use restorelab.Store.Keyed.{IsKeyed}
use restorelab.Store.Claim.{ClaimSays, claim_run-ClaimSays}
use restorelab.Store.Cancel.{CancelSays, request_cancel-CancelSays}
use restorelab.Store.Held.{Held}
use restorelab.Store.Settled.{IsAt, apply_all-settled}
use restorelab.Store.Slots.{Slot, SlotOutcome, Tables, decided, claim_slot, claim_queued}
use restorelab.Store.Slots.Once.{
  Transaction, delete_plan, write, commit_all, SlotSays, claim_slot-SlotSays, claim_slot-once,
}
use restorelab.Trigger.{StoredPlan, Request, already_running, prepare, trigger, queued_run}
use restorelab.Trigger.Exclusive.{HasOpen, trigger-exclusive}
use restorelab.Scheduler.Decide.{Schedule, decide_up_to}
use restorelab.Scheduler.Due.{DecideSays}
use restorelab.Scheduler.Tick.{Scheduler, tick, queue_depth, list_plans, take}
use restorelab.Scheduler.Pass.{slots_of, has_plan, by_names, in_first, tick-bounded, tick-unlisted}

abbrev done_at : {A : Type 0} → A → ℕ → Reply A × ℕ
done_at a w = (answered a, suc w)

abbrev a_backup : Backup
a_backup = record { id = "backup-1"; workload_id = "110"; node = "pve1"; created_at = 5 }

abbrev cluster : Engine
cluster = record {
  World = ℕ;
  Job = ℕ;
  provider_id = "proxmox";
  backup_provider_id = "pbs";
  now = λ w. (w, suc w);
  sleep = λ d w. (none, w + d);
  is_cancelled = λ w. false;
  new_id = λ w. ("run-1", suc w);
  stamp = λ t. "20260101000000";
  get_workload = λ id w. done_at (record { id = id; name = "web"; node = "pve1" }) w;
  list_backups = λ id w. done_at (a_backup ∷ []) w;
  get_latest_backup = λ id w. done_at a_backup w;
  validate_isolation = none;
  node_capacity = none;
  allocate_workload_id = λ w. done_at "9001" w;
  restore = λ b o w. done_at 7 w;
  wait_for_job = λ j w. done_at (some (record { success = true; message = "" })) w;
  finalize_restore = none;
  start = λ id w. done_at tt w;
  stop = λ id w. done_at tt w;
  delete = λ id w. done_at tt w;
  get_status = λ id w.
      done_at (record { power_state = power_running; agent_ready = true; ips = "10.0.0.9" ∷ [] }) w;
  run_all = λ t cs w. (inr [], suc w);
}

abbrev a_plan : Plan
a_plan = record {
  name = "web";
  workload = record { provider = ""; id = "110"; name = "" };
  backup = record { provider = ""; strategy = latest; id = ""; max_age = 0 };
  restore = record {
    node = "";
    storage = "local";
    pool = "";
    network = "isolated";
    bridge = "vmbr9";
    cpu_limit = 1;
    memory_limit_mb = 512;
    bandwidth_kibps = 0;
    timeout = 100;
  };
  startup = record {
    skip = false;
    timeout = 100;
    wait_for_ip = some true;
    wait_for_agent = some false;
    ip = "";
  };
  checks = [];
  cleanup = record { always = some true; keep_on_failure = false };
  rto_target = 0;
  schedule = "0 3 * * 0";
  schedule_timezone = "";
}

abbrev options : RunOptions
options = record {
  run_id = "run-1";
  network = record { bridge = "vmbr9"; isolated = true };
  node = "";
  storage = "";
  pool = "";
  dry_run = false;
  keep_workload = false;
}

-- A provider that can prove isolation, and finds the network routed.
abbrev routed : Engine
routed = record cluster {
  validate_isolation = some (λ node network w. (
    refused (record { isolation_unverified = false; marked_retryable = false; message = "routed" }),
    suc w,
  ));
}

run-Accounted_example :
    EndsAs
      (Accounted a_plan options
        (verdict cluster 5 a_plan options 10)
        (failures cluster 5 a_plan options 10))
      IsTorn
      IsKept
      (run cluster 5 a_plan options 10)
run-Accounted_example = run-Accounted cluster 5 a_plan options 10

run-Reported_example : EndsAs Reported Nothing Nothing (run cluster 5 a_plan options 10)
run-Reported_example = run-Reported cluster 5 a_plan options 10

abbrev a_check : String → ProofLevel → CheckStatus → ProofCheck
a_check name level status = record {
  config = record {
    type = "tcp";
    name = name;
    timeout = 1;
    retries = 0;
    retry_interval = 1;
    critical = true;
    params = [];
    proves = level;
    capture = "";
    assert = none;
    drift = none;
  };
  result = record { name = name; type = "tcp"; status = status; attempts = 1; captured = [] };
}

abbrev some_checks : List ProofCheck
some_checks = a_check "port" proof_service check_pass ∷ a_check "rows" proof_data check_fail ∷ []

proven_by-greatest_example :
    ((m : ProofLevel) → Claims m some_checks → rank m ≤ℤ rank (proven_by some_checks))
    × ((proven_by some_checks ≡ proof_none) ⊎ Claims (proven_by some_checks) some_checks)
proven_by-greatest_example = proven_by-greatest some_checks

abbrev a_request : String → ℕ → Request
a_request id at = record {
  plan = some a_plan;
  stored = none;
  default_provider = "proxmox";
  id = id;
  at = at;
}

abbrev first_run : RecoveryRun
first_run = queued_run a_plan (a_request "run-1" 20)

abbrev first_row : Row
first_row = queued_row first_run "yaml" 20

abbrev a_queue : List Row
a_queue = first_row ∷ []

abbrev no_text : Error → String
no_text x = "failed"

abbrev the_claim : QueuedRun
the_claim = scan_queued_run first_row

first_claim : (claim_run true "worker-1" 60 30 a_queue).0 ≡ some the_claim
unfolding claim_run least select_where count_where queued_row queued_run update_where
first_claim = refl

abbrev meanwhile : List Operation
meanwhile =
    Operation.set_state "run-1" RunState.failed
    ∷ Operation.finish_lease "run-1"
    ∷ Operation.claim_run true "worker-2" 60 95
    ∷ []

claim_run-once_example :
    (claim_run true "worker-3" 60 200
      (apply_all no_text meanwhile (claim_run true "worker-1" 60 30 a_queue).1)).0
    ≢ some the_claim
claim_run-once_example =
    claim_run-once no_text true "worker-1" 60 30 a_queue the_claim meanwhile "worker-3" 60 200
      the_claim first_claim refl

a_queue-IsKeyed : IsKeyed a_queue
unfolding any_where
a_queue-IsKeyed = (refl, tt)

claim_run-ClaimSays_example :
    ClaimSays "worker-1" 90 a_queue (claim_run true "worker-1" 60 30 a_queue)
claim_run-ClaimSays_example = claim_run-ClaimSays true "worker-1" 60 30 a_queue a_queue-IsKeyed

-- The run is claimed when the first statement of a cancellation looks, and free behind it.
abbrev running_queue : List Row
running_queue = record first_row { lease_owner = some "worker-1"; state = RunState.starting } ∷ []

request_cancel-CancelSays_example :
    CancelSays "run-1" 40 running_queue a_queue
      (ask_to_stop "run-1" 40 a_queue)
      (request_cancel "run-1" 40 (λ t. a_queue) (λ t. t) running_queue)
unfolding any_where
request_cancel-CancelSays_example =
    request_cancel-CancelSays "run-1" 40 (λ t. a_queue) (λ t. t) running_queue (refl, tt)
      a_queue-IsKeyed

abbrev settled_queue : List Row
settled_queue = record first_row { state = RunState.success } ∷ []

settled_queue-Held : Held "run-1" (IsAt RunState.success) settled_queue
unfolding any_where queued_row queued_run
settled_queue-Held = record { present = refl; holds = ((λ e. refl), tt) }

success_is_terminal : terminal RunState.success ≡ true
unfolding terminal
success_is_terminal = refl

apply_all-settled_example :
    Held "run-1" (IsAt RunState.success) (apply_all no_text meanwhile settled_queue)
apply_all-settled_example =
    apply_all-settled no_text meanwhile "run-1" RunState.success settled_queue success_is_terminal
      (refl, (refl, (refl, tt))) settled_queue-Held
