-- ===== src/Scheduler/Decide.antt =====
-- internal/scheduler/slots.go. An instant is a number of nanoseconds; the parsed cron expression and
-- the calendar of its location are third-party code, a parameter of the model.
use restorelab.Prelude.{
  ℕ, zero, suc, ◌+◌, ◌-◌, ◌*◌, Bool, true, false, ◌&&◌, Option, none, some, ltb, ◌==◌,
  if◌then◌else◌,
}
use restorelab.Store.Slots.{Slot}

-- `sameWallClock` reads a date, an hour and a minute.
pub record Clock : Type 0 where
  pub year : ℕ
  pub month : ℕ
  pub day : ℕ
  pub hour : ℕ
  pub minute : ℕ

-- `plan.Schedule`: the cron's `Next`, and the wall clock in its location.
pub record Schedule : Type 0 where
  pub next : ℕ → ℕ
  pub read : ℕ → Clock

-- The instant, and how late it was with the number of slots stepped over for a skip.
pub record Decision : Type 0 where
  pub slot_at : ℕ
  pub skip : Bool
  pub late : ℕ
  pub missed : ℕ

abbrev pub max_collapse : ℕ
max_collapse = 10000

abbrev pub date : Clock → ℕ
date c = c.year * 10000 + c.month * 100 + c.day

abbrev pub reads_same : Clock → Clock → Bool
reads_same x y = (date x == date y) && ((x.hour == y.hour) && (x.minute == y.minute))

unfoldable pub same_wall_clock : Schedule → ℕ → ℕ → Bool
same_wall_clock sched a b = reads_same (sched.read a) (sched.read b)

-- The loop that steps over missed slots, with the steps it has left: the slot, and the count.
unfoldable pub collapse : Schedule → ℕ → ℕ → ℕ → ℕ → ℕ × ℕ
collapse sched now zero slot missed = (slot, missed)
collapse sched now (suc left) slot missed =
    let rest = collapse sched now left (sched.next slot) (suc missed) in
    if ltb now (sched.next slot) then (slot, missed) else rest

abbrev pub floor : Option Slot → ℕ → ℕ
floor none started_at = started_at
floor (some last) started_at = last.slot_at

-- The first slot behind the floor, past the repeated hour of a fall-back.
abbrev pub resume : Schedule → Option Slot → ℕ → ℕ
resume sched none slot = slot
resume sched (some last) slot =
    if same_wall_clock sched slot last.slot_at then sched.next slot else slot

abbrev pub rule : ℕ → ℕ → ℕ → ℕ → Decision
rule now grace slot missed =
    if ltb grace (now - slot)
    then record { slot_at = slot; skip = true; late = now - slot; missed = missed }
    else record { slot_at = slot; skip = false; late = 0; missed = 0 }

-- The rest of `decide` from the first slot behind the floor, with the bound of its loop.
unfoldable pub decide_within : ℕ → Schedule → ℕ → ℕ → ℕ → Option Decision
unfolding collapse
decide_within limit sched now grace slot =
    if ltb now slot
    then none
    else let (due, missed) = collapse sched now limit slot 0 in some (rule now grace due missed)

-- `decide` with the bound of its loop as an argument.
unfoldable pub decide_up_to : ℕ → Option Schedule → Option Slot → ℕ → ℕ → ℕ → Option Decision
unfolding decide_within
decide_up_to limit none last started_at now grace = none
decide_up_to limit (some sched) last started_at now grace =
    decide_within limit sched now grace (resume sched last (sched.next (floor last started_at)))

unfoldable pub decide : Option Schedule → Option Slot → ℕ → ℕ → ℕ → Option Decision
unfolding decide_up_to
decide sched last started_at now grace = decide_up_to max_collapse sched last started_at now grace
