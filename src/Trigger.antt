-- ===== src/Trigger.antt =====
-- internal/trigger/trigger.go: the guards that every drill passes on its way to the queue.
pub mod Exclusive
use restorelab.Prelude.{
  ℕ, Bool, true, false, String, Option, none, some, List, [], str_eq, if◌then◌else◌,
}
use restorelab.Core.Proof.{proof_unknown}
use restorelab.Core.Run.{RunState, RecoveryRun}
use restorelab.Plan.{Plan}
use restorelab.Store.Row.{Row}
use restorelab.Store.Queue.{active_run_for_workload, enqueue}

-- `store.Plan`, a row of the catalogue.
pub record StoredPlan : Type 0 where
  pub id : String
  pub name : String
  pub version : ℕ
  pub yaml : String
  pub provider_id : String

-- `Request`; the plan of a request without one is refused before anything else.
pub record Request : Type 0 where
  pub plan : Option Plan
  pub stored : Option StoredPlan
  pub default_provider : String
  pub id : String
  pub at : ℕ

pub record Prepared : Type 0 where
  pub run : RecoveryRun
  pub plan_yaml : String

-- How `Prepare` ends.
pub data Answer : Type 0 where
  prepared : Prepared → Answer
  already_running : String → String → Answer
  no_plan unmarshallable : Answer

abbrev pub stored_id : Option StoredPlan → String
stored_id none = ""
stored_id (some row) = row.id

abbrev pub stored_version : Option StoredPlan → ℕ
stored_version none = 0
stored_version (some row) = row.version

unfoldable pub queued_run : Plan → Request → RecoveryRun
queued_run p req = record {
  id = req.id;
  plan_name = p.name;
  plan_id = stored_id req.stored;
  plan_version = stored_version req.stored;
  provider_id = if str_eq p.workload.provider "" then req.default_provider else p.workload.provider;
  backup_provider_id = "";
  source_workload_id = p.workload.id;
  source_name = "";
  temp_workload_id = "";
  temp_name = "";
  node = "";
  backup = none;
  state = RunState.queued;
  result = none;
  proof_level = proof_unknown;
  started_at = 0;
  completed_at = 0;
  steps = [];
  checks = [];
  rto = 0;
  rto_target = p.rto_target;
  cleanup_done = false;
  err = none;
}

-- `marshal` is `yaml.Marshal`, third-party code.
abbrev pub snapshot : (Plan → Option String) → Plan → Request → Option String → Answer
snapshot marshal p req none = unmarshallable
snapshot marshal p req (some yaml) = prepared (record { run = queued_run p req; plan_yaml = yaml })

abbrev pub unless_active : (Plan → Option String) → Plan → Request → Option String → Answer
unless_active marshal p req none = snapshot marshal p req (marshal p)
unless_active marshal p req (some active) = already_running p.workload.id active

abbrev pub prepare_plan : (Plan → Option String) → Request → Option Plan → List Row → Answer
prepare_plan marshal req none t = no_plan
prepare_plan marshal req (some p) t =
    unless_active marshal p req (active_run_for_workload p.workload.id t)

-- `Prepare`. The id of a run is never empty, so `none` is the source's empty active id.
unfoldable pub prepare : (Plan → Option String) → Request → List Row → Answer
prepare marshal req t = prepare_plan marshal req req.plan t

-- `Enqueue` behind its `Prepare`, the second of its two calls of the store.
abbrev pub enqueue_prepared : Request → Answer → List Row → Option (List Row)
enqueue_prepared req (prepared prep) t = enqueue prep.run prep.plan_yaml req.at t
enqueue_prepared req _ t = none

unfoldable pub trigger : (Plan → Option String) → Request → List Row → Option (List Row)
trigger marshal req t = enqueue_prepared req (prepare marshal req t) t
