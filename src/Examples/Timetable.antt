-- ===== src/Examples/Timetable.antt =====
-- The theorems on the slots of the schedule, the trigger and the scheduler.
use mathlib.Core.Bool.{false≢true}
use restorelab.Prelude.{
  ℕ, zero, suc, ◌&&◌, str_eq, ◌+◌, ◌-◌, ◌≤◌, ◌≡◌, ◌≢◌, refl, false, String, Option, some, List, [],
  ◌∷◌, length, eq_iff,
}
use restorelab.Core.Run.{RunState}
use restorelab.Plan.{Plan}
use restorelab.Store.Table.{any_where, select_where, least, sort_by, insert_by}
use restorelab.Store.Queue.{queued_row, enqueue, insert_row, active_run_for_workload}
use restorelab.Store.Operations.{Operation}
use restorelab.Store.Slots.{Slot, SlotOutcome, Tables, decided, claim_slot, claim_queued}
use restorelab.Store.Slots.Once.{
  Transaction, delete_plan, write, commit_all, SlotSays, claim_slot-SlotSays, claim_slot-once,
}
use restorelab.Trigger.{StoredPlan, already_running, prepare, trigger, queued_run}
use restorelab.Trigger.Exclusive.{HasOpen, trigger-exclusive}
use restorelab.Scheduler.Decide.{Schedule}
use restorelab.Scheduler.Tick.{Scheduler, tick, queue_depth}
use restorelab.Scheduler.Pass.{slots_of, has_plan, by_names, in_first, tick-bounded, tick-unlisted}
use restorelab.Examples.{a_plan, a_request, first_run, a_queue, no_text}

abbrev a_slot : Slot
a_slot = record {
  plan_id = "plan-1";
  slot_at = 100;
  decided_at = 110;
  outcome = SlotOutcome.queued;
  reason = "";
  run_id = "run-1";
}

abbrev empty_tables : Tables
empty_tables = record { runs = []; slots = []; plan_ids = "plan-1" ∷ [] }

first_slot : (claim_slot a_slot (some first_run) "yaml" empty_tables).0 ≡ decided
unfolding claim_slot claim_queued enqueue insert_row queued_row queued_run any_where
first_slot = refl

claim_slot-SlotSays_example :
    SlotSays a_slot
      (some first_run)
      "yaml"
      empty_tables
      (claim_slot a_slot (some first_run) "yaml" empty_tables)
claim_slot-SlotSays_example = claim_slot-SlotSays a_slot (some first_run) "yaml" empty_tables

-- Another plan is deleted, and the run fails.
abbrev between_claims : List Transaction
between_claims = delete_plan "plan-7" ∷ write (Operation.set_state "run-1" RunState.failed) ∷ []

claim_slot-once_example :
    (claim_slot
      (record a_slot { run_id = "run-2" })
      (some first_run)
      "yaml"
      (commit_all no_text between_claims
        (claim_slot a_slot (some first_run) "yaml" empty_tables).1)).0
    ≢ decided
claim_slot-once_example =
    claim_slot-once no_text a_slot (some first_run) "yaml" empty_tables between_claims
      (record a_slot { run_id = "run-2" }) (some first_run) "yaml" first_slot refl refl
      ((λ e. false≢true ((eq_iff "plan-7" "plan-1").1 e)), (tt, tt))

abbrev marshalled : Plan → Option String
marshalled p = some "yaml"

first_trigger : trigger marshalled (a_request "run-1" 20) [] ≡ some a_queue
unfolding trigger prepare active_run_for_workload least select_where enqueue insert_row any_where
    queued_row queued_run
first_trigger = refl

trigger-exclusive_example :
    (active : String) × ((prepare marshalled (a_request "run-2" 21) a_queue
        ≡ already_running "110" active)
      × HasOpen "110" active a_queue)
trigger-exclusive_example =
    trigger-exclusive marshalled a_plan a_plan (a_request "run-1" 20) (a_request "run-2" 21) []
      a_queue refl refl refl first_trigger

abbrev hourly : Schedule
hourly = record {
  next = λ t. t + 60;
  read = λ t. record { year = 2026; month = 1; day = 1; hour = t; minute = 0 };
}

abbrev a_stored_plan : StoredPlan
a_stored_plan = record {
  id = "plan-1";
  name = "web";
  version = 1;
  yaml = "yaml";
  provider_id = "proxmox";
}

abbrev a_scheduler : Scheduler
a_scheduler = record {
  grace = 30;
  max_queue_depth = 5;
  started_at = 0;
  name_before = λ a b. false;
  parse = λ y. some a_plan;
  parse_schedule = λ p. some (some hourly);
  marshal = marshalled;
  now = λ row. 70;
  decided_at = λ row. 71;
  new_id = λ row. "run-9";
  is_cancelled = λ row. false;
  lateness = λ d. "late";
  busy = λ id. id;
  unreadable = λ y. y;
}

tick-bounded_example :
    length (tick a_scheduler (a_stored_plan ∷ []) empty_tables).runs
    ≤ length empty_tables.runs + (5 - queue_depth empty_tables.runs)
tick-bounded_example = tick-bounded a_scheduler (a_stored_plan ∷ []) empty_tables

-- A catalogue of fifty plans with the name of the first one, and one behind them in the order.
many_plans : ℕ → List StoredPlan
many_plans zero = []
many_plans (suc n) = a_stored_plan ∷ many_plans n

abbrev last_plan : StoredPlan
last_plan = record a_stored_plan { id = "plan-2"; name = "zoo" }

abbrev a_catalogue : List StoredPlan
a_catalogue = last_plan ∷ many_plans 50

abbrev by_name : Scheduler
by_name = record a_scheduler { name_before = λ a b. str_eq a "web" && str_eq b "zoo" }

behind_fifty : any_where (has_plan "plan-2") (in_first 50 (by_names by_name a_catalogue)) ≡ false
unfolding any_where sort_by insert_by many_plans in_first
behind_fifty = refl

tick-unlisted_example :
    slots_of "plan-2" (tick by_name a_catalogue empty_tables) ≡ slots_of "plan-2" empty_tables
tick-unlisted_example = tick-unlisted by_name a_catalogue empty_tables "plan-2" behind_fifty
