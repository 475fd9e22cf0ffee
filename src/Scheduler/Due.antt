-- ===== src/Scheduler/Due.antt =====
-- Which slot `decide` rules on.
use restorelab.Prelude.{
  ℕ, zero, suc, ◌+◌, ◌-◌, ◌≤◌, ◌<◌, ◌≡◌, ◌⊎◌, ◌↔◌, true, if◌then◌else◌, Option, none, some,
}
use restorelab.Store.Slots.{Slot}
use restorelab.Scheduler.Decide.{Schedule, Clock, Decision, date}

-- A cron expression designates instants strictly after the one it is asked from.
abbrev pub Advances : Schedule → Type 0
Advances sched = (t : ℕ) → t < sched.next t

-- The slot that is `n` slots behind the one at `t`.
pub hops : Schedule → ℕ → ℕ → ℕ
hops sched zero t = t
hops sched (suc n) t = hops sched n (sched.next t)

-- Two instants with the same date, hour and minute on the clock of the schedule's location.
pub record RepeatsClock (x y : Clock) : Type 0 where
  pub on_day : date x ≡ date y
  pub in_hour : x.hour ≡ y.hour
  pub in_minute : x.minute ≡ y.minute

-- The slot that a decision starts from: the first behind the last decided slot, or behind the start of
-- the scheduler without one; the second where the first repeats the last one's clock.
pub data StartsAt (sched : Schedule) (started_at : ℕ) : Option Slot → ℕ → Type 0 where
  unseen : StartsAt sched started_at none (sched.next started_at)
  behind :
      (last : Slot)
      → (RepeatsClock (sched.read (sched.next last.slot_at)) (sched.read last.slot_at) → ⊥)
      → StartsAt sched started_at (some last) (sched.next last.slot_at)
  past_repeat :
      (last : Slot)
      → RepeatsClock (sched.read (sched.next last.slot_at)) (sched.read last.slot_at)
      → StartsAt sched started_at (some last) (sched.next (sched.next last.slot_at))

-- What the loop ends on, from a slot that is due, with `left` steps.
record Collapsed (sched : Schedule) (now left slot missed : ℕ) (end : ℕ × ℕ) : Type 0 where
  is_due : end.0 ≤ now
  ahead : slot ≤ end.0
  steps : ℕ
  newest : (now < sched.next end.0) ⊎ (steps ≡ left)
  within : steps ≤ left
  counted : end.1 ≡ missed + steps
  stepped : end.0 ≡ hops sched steps slot

-- What a decision says of the slot that it starts from, of the schedule, the clock and the grace. It
-- steps over `steps` slots, as many as are due behind the first, up to the bound of the loop.
pub record IsDue (limit : ℕ) (sched : Schedule) (first now grace : ℕ) (d : Decision) : Type 0 where
  pub steps : ℕ
  pub within : steps ≤ limit
  pub stepped : d.slot_at ≡ hops sched steps first
  pub due : d.slot_at ≤ now
  pub newest : (now < sched.next d.slot_at) ⊎ (steps ≡ limit)
  pub on_time : (d.skip ≡ true) ↔ (grace < now - d.slot_at)
  pub counted : d.missed ≡ (if d.skip then steps else 0)
  pub measured : d.late ≡ (if d.skip then now - d.slot_at else 0)

-- What `decide` answers.
pub data DecideSays (limit : ℕ) (sched : Schedule) (started_at : ℕ) (last : Option Slot)
    (now grace : ℕ) : Option Decision → Type 0 where
  nothing_due :
      (first : ℕ)
      → StartsAt sched started_at last first
      → now < first
      → DecideSays limit sched started_at last now grace none
  ruled :
      (first : ℕ) (d : Decision)
      → StartsAt sched started_at last first
      → IsDue limit sched first now grace d
      → DecideSays limit sched started_at last now grace (some d)
