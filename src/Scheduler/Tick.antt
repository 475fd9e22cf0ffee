-- ===== src/Scheduler/Tick.antt =====
-- internal/scheduler/scheduler.go: one pass over the catalogue, with the listings of the store that
-- it reads. The logging, which nothing reads back, is left out; a failure of the database ends a
-- pass or skips a plan in the source and is not modelled.
use restorelab.Prelude.{
  ℕ, zero, suc, Bool, true, false, String, Option, none, some, List, [], ◌∷◌, length, leb,
  if◌then◌else◌,
}
use restorelab.Core.Run.{RecoveryRun}
use restorelab.Plan.{Plan}
use restorelab.Store.Table.{select_where, sort_by}
use restorelab.Store.Row.{Row}
use restorelab.Store.Queue.{open_run}
use restorelab.Store.Slots.{Slot, SlotOutcome, Tables, SlotClaim, decided, claim_slot, last_slot}
use restorelab.Trigger.{
  StoredPlan, Request, Answer, prepared, already_running, no_plan, unmarshallable, prepare,
}
use restorelab.Scheduler.Decide.{Schedule, Decision, decide}

-- The fields of `Scheduler`, and what it meets in one pass: the order of names of the database, the
-- reading of a document and of its cron expression, the snapshot's writer, and what the clock, the
-- generator of ids and the context answer while a plan is considered.
pub record Scheduler : Type 0 where
  pub grace : ℕ
  pub max_queue_depth : ℕ
  pub started_at : ℕ
  pub name_before : String → String → Bool
  pub parse : String → Option Plan
  pub parse_schedule : Plan → Option (Option Schedule)
  pub marshal : Plan → Option String
  pub now : StoredPlan → ℕ
  pub decided_at : StoredPlan → ℕ
  pub new_id : StoredPlan → String
  pub is_cancelled : StoredPlan → Bool
  pub lateness : Decision → String
  pub busy : String → String
  pub unreadable : String → String

abbrev pub default_list_limit : ℕ
default_list_limit = 50

unfoldable pub take {ℓ} : {A : Type ℓ} → ℕ → List A → List A
take zero xs = []
take (suc n) [] = []
take (suc n) (x ∷ xs) = x ∷ take n xs

-- `ListPlans` without a filter: a limit of 0 is the default one.
unfoldable pub list_plans : Scheduler → List StoredPlan → List StoredPlan
list_plans s plans = take default_list_limit (sort_by (λ x y. s.name_before x.name y.name) plans)

-- `queueDepth`: the length of a listing of runs, which has the same default limit.
unfoldable pub queue_depth : List Row → ℕ
queue_depth t = length (take default_list_limit (select_where open_run t))

abbrev pub is_decided : SlotClaim → Bool
is_decided decided = true
is_decided _ = false

abbrev pub run_id_of : Option RecoveryRun → String
run_id_of none = ""
run_id_of (some run) = run.id

abbrev pub outcome_of : Option RecoveryRun → SlotOutcome
outcome_of none = SlotOutcome.skipped
outcome_of (some _) = SlotOutcome.queued

abbrev pub is_queueing : Option RecoveryRun → Bool
is_queueing none = false
is_queueing (some _) = true

-- `claim`: a skip has no run. The answer is whether a drill was queued.
unfoldable pub claim :
    Scheduler → StoredPlan → ℕ → String → Option RecoveryRun → String → Tables → Bool × Tables
claim s row slot_at reason run plan_yaml db =
    let slot : Slot = record {
      plan_id = row.id;
      slot_at = slot_at;
      decided_at = s.decided_at row;
      outcome = outcome_of run;
      reason = reason;
      run_id = run_id_of run;
    } in
    let (c, db') = claim_slot slot run plan_yaml db in
    ((if is_decided c then is_queueing run else false), db')

abbrev pub request_for : Scheduler → StoredPlan → Plan → Request
request_for s row p = record {
  plan = some p;
  stored = some row;
  default_provider = row.provider_id;
  id = s.new_id row;
  at = s.now row;
}

abbrev pub queue_prepared : Scheduler → StoredPlan → ℕ → Answer → Tables → Bool × Tables
queue_prepared s row slot_at (prepared prep) db =
    claim s row slot_at "" (some prep.run) prep.plan_yaml db
queue_prepared s row slot_at (already_running workload active) db =
    claim s row slot_at (s.busy active) none "" db
queue_prepared s row slot_at no_plan db = (false, db)
queue_prepared s row slot_at unmarshallable db = (false, db)

abbrev pub act : Scheduler → StoredPlan → Plan → Option Decision → Tables → Bool × Tables
act s row p none db = (false, db)
act s row p (some d) db =
    if d.skip
    then claim s row d.slot_at (s.lateness d) none "" db
    else queue_prepared s row d.slot_at (prepare s.marshal (request_for s row p) db.runs) db

abbrev pub consider_schedule :
    Scheduler → StoredPlan → Plan → Option (Option Schedule) → Tables → Bool × Tables
consider_schedule s row p none db = (false, db)
consider_schedule s row p (some sched) db =
    act s row p (decide sched (last_slot row.id db) s.started_at (s.now row) s.grace) db

abbrev pub consider_parsed : Scheduler → StoredPlan → Option Plan → Tables → Bool × Tables
consider_parsed s row none db = claim s row (s.now row) (s.unreadable row.yaml) none "" db
consider_parsed s row (some p) db = consider_schedule s row p (s.parse_schedule p) db

unfoldable pub consider_plan : Scheduler → StoredPlan → Tables → Bool × Tables
consider_plan s row db = consider_parsed s row (s.parse row.yaml) db

abbrev pub count_queued : Bool → ℕ → ℕ
count_queued true depth = suc depth
count_queued false depth = depth

-- The loop of `Tick` over the plans that are left.
unfoldable pub tick_plans : Scheduler → List StoredPlan → ℕ → Tables → Tables
tick_plans s [] depth db = db
tick_plans s (row ∷ rows) depth db =
    let (queued, db') = consider_plan s row db in
    let rest = tick_plans s rows (count_queued queued depth) db' in
    if s.is_cancelled row then db else if leb s.max_queue_depth depth then db else rest

unfoldable pub tick : Scheduler → List StoredPlan → Tables → Tables
tick s plans db = tick_plans s (list_plans s plans) (queue_depth db.runs) db
