-- ===== src/Store/Slots.antt =====
-- internal/store/schedule.go: the table `schedule_slots`, whose key is a plan and an instant, and the
-- one transaction that writes a slot with the run that it queues.
pub mod Once
use restorelab.Prelude.{
  ℕ, Bool, true, false, not, ◌&&◌, ◌||◌, String, Option, none, some, List, [], ◌∷◌, ◌++◌, ltb, ◌==◌,
  str_eq, if◌then◌else◌,
}
use restorelab.Core.Run.{RecoveryRun}
use restorelab.Store.Table.{update_where, select_where, any_where, least, null_string}
use restorelab.Store.Row.{Row}
use restorelab.Store.Queue.{has_id, enqueue}

pub data SlotOutcome : Type 0 where
  queued skipped : SlotOutcome

-- `Slot`; `reason` and `run_id` are empty texts where the source leaves them empty.
pub record Slot : Type 0 where
  pub plan_id : String
  pub slot_at : ℕ
  pub decided_at : ℕ
  pub outcome : SlotOutcome
  pub reason : String
  pub run_id : String

-- The two tables that a transaction of the scheduler writes, and the ids of the table of plans, which
-- their foreign keys refer to.
pub record Tables : Type 0 where
  pub runs : List Row
  pub slots : List Slot
  pub plan_ids : List String

-- How `ClaimSlot` ends: the slot is decided now, it was already, the call has no run, or a key of a
-- table refused an insert.
pub data SlotClaim : Type 0 where
  decided duplicate no_run refused : SlotClaim

abbrev pub is_slot : String → ℕ → Slot → Bool
is_slot plan_id slot_at s = str_eq s.plan_id plan_id && (s.slot_at == slot_at)

-- A foreign key: empty, which is NULL, or the id of a plan.
abbrev pub is_plan : String → List String → Bool
is_plan id plan_ids = str_eq id "" || any_where (λ p. str_eq p id) plan_ids

-- The references of a slot: its plan, which is not NULL, and its run.
abbrev pub refers : Slot → Tables → Bool
refers slot db =
    any_where (λ p. str_eq p slot.plan_id) db.plan_ids
    && (str_eq slot.run_id "" || any_where (has_id slot.run_id) db.runs)

-- `insertSlotSQL` on the tables `db`, in a transaction that began with `before`.
abbrev pub insert_slot : Slot → Tables → Tables → SlotClaim × Tables
insert_slot slot before db =
    if any_where (is_slot slot.plan_id slot.slot_at) db.slots
    then (duplicate, before)
    else if refers slot db
    then (decided, record db { slots = db.slots ++ slot ∷ [] })
    else (refused, before)

abbrev pub with_runs : Slot → Tables → Option (List Row) → SlotClaim × Tables
with_runs slot db none = (refused, db)
with_runs slot db (some runs) = insert_slot slot db (record db { runs = runs })

unfoldable pub claim_queued : Slot → Option RecoveryRun → String → Tables → SlotClaim × Tables
claim_queued slot none plan_yaml db = (no_run, db)
claim_queued slot (some run) plan_yaml db =
    if is_plan run.plan_id db.plan_ids
    then with_runs slot db (enqueue run plan_yaml slot.decided_at db.runs)
    else (refused, db)

abbrev pub claim_outcome :
    SlotOutcome → Slot → Option RecoveryRun → String → Tables → SlotClaim × Tables
claim_outcome SlotOutcome.queued slot run plan_yaml db = claim_queued slot run plan_yaml db
claim_outcome SlotOutcome.skipped slot run plan_yaml db = insert_slot slot db db

-- `ClaimSlot`; what fails leaves the tables as the transaction found them.
unfoldable pub claim_slot : Slot → Option RecoveryRun → String → Tables → SlotClaim × Tables
unfolding claim_queued
claim_slot slot run plan_yaml db = claim_outcome slot.outcome slot run plan_yaml db

-- `LastSlot`; `none` is `ErrNotFound`.
unfoldable pub last_slot : String → Tables → Option Slot
last_slot plan_id db =
    least (λ x y. ltb y.slot_at x.slot_at) (select_where (λ s. str_eq s.plan_id plan_id) db.slots)

abbrev pub of_plan : String → Row → Bool
of_plan id r = elim r.plan_id [ none ↦ false | some p ↦ str_eq p id ]

-- A deleted plan: its slots go with it, and its runs lose the link.
unfoldable pub drop_plan : String → Tables → Tables
drop_plan id db = record {
  runs = update_where (of_plan id) (λ r. record r { plan_id = none }) db.runs;
  slots = select_where (λ s. not (str_eq s.plan_id id)) db.slots;
  plan_ids = select_where (λ p. not (str_eq p id)) db.plan_ids;
}
