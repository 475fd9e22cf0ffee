-- ===== src/Scheduler/Pass.antt =====
-- What one pass over the catalogue may write: no run past the cap, and no slot of another plan.
use mathlib.Core.Bool.{false≢true}
use restorelab.Prelude.{
  ℕ, zero, suc, ◌+◌, ◌-◌, ◌≤◌, ◌≡◌, ◌≢◌, refl, sym, ap, ◌∙◌, inl, inr, Bool, true, false, String,
  Option, none, some, List, [], ◌∷◌, ◌++◌, length, length-append, All, leb, Bool-cases, arith,
  str_eq, eq_iff, if◌then◌else◌,
}
use restorelab.Core.Run.{RecoveryRun}
use restorelab.Plan.{Plan}
use restorelab.Store.Table.{select_where, any_where, sort_by}
use restorelab.Store.Row.{Row}
use restorelab.Store.Slots.{Slot, Tables, SlotClaim, decided, duplicate, no_run, refused}
use restorelab.Store.Slots.Once.{SlotSays, took, kept, with_run, claim_slot-SlotSays}
use restorelab.Trigger.{StoredPlan, Answer, prepared, already_running, no_plan, unmarshallable}
use restorelab.Scheduler.Decide.{Schedule, Decision}
use restorelab.Scheduler.Tick.{
  Scheduler, is_decided, is_queueing, outcome_of, claim, queue_prepared, act, consider_schedule,
  consider_parsed, consider_plan, count_queued, tick_plans, tick, take, list_plans, queue_depth,
}

pub slots_of : String → Tables → List Slot
slots_of id db = select_where (λ s. str_eq s.plan_id id) db.slots

select-append :
    {A : Type 0} (p : A → Bool) (xs : List A) (x : A)
    → p x ≡ false
    → select_where p (xs ++ x ∷ []) ≡ select_where p xs
unfolding select_where
select-append p [] x h = rw h refl
select-append p (y ∷ ys) x h = rw (select-append p ys x h) refl

-- What considering one plan does to the tables.
pub record Considered (row : StoredPlan) (db : Tables) (o : Bool × Tables) : Type 0 where
  pub grown : length o.1.runs ≡ count_queued o.0 (length db.runs)
  pub others : (id : String) → id ≢ row.id → slots_of id o.1 ≡ slots_of id db

Considered-nothing : (row : StoredPlan) (db : Tables) → Considered row db (false, db)
Considered-nothing row db = record { grown = refl; others = λ id n. refl }

other-false : (a b : String) → b ≢ a → str_eq a b ≡ false
other-false a b n = elim (Bool-cases (str_eq a b)) [
  | inl e ↦ absurd (n (sym ((eq_iff a b).0 e)))
  | inr e ↦ e
]

with_run-length :
    (run : Option RecoveryRun) (yaml : String) (at : ℕ) (t : List Row)
    → length (with_run (outcome_of run) run yaml at t) ≡ count_queued (is_queueing run) (length t)
with_run-length none yaml at t = refl
with_run-length (some run) yaml at t = omega (arith, length-append t (_ ∷ []))

Says-Considered :
    (row : StoredPlan) (slot : Slot) (run : Option RecoveryRun) (yaml : String) (db : Tables)
    (o : SlotClaim × Tables)
    → slot.plan_id ≡ row.id
    → slot.outcome ≡ outcome_of run
    → SlotSays slot run yaml db o
    → Considered row db ((if is_decided o.0 then is_queueing run else false), o.1)
unfolding slots_of
Says-Considered row slot run yaml db _ p q (took runs e n) = record {
  grown = ap length e ∙ rw q (with_run-length run yaml slot.decided_at db.runs);
  others = λ id ne. select-append _ db.slots slot (rw p (other-false row.id id ne));
}
Says-Considered row slot run yaml db _ p q (kept duplicate n) = Considered-nothing row db
Says-Considered row slot run yaml db _ p q (kept no_run n) = Considered-nothing row db
Says-Considered row slot run yaml db _ p q (kept refused n) = Considered-nothing row db
Says-Considered row slot run yaml db _ p q (kept decided n) = absurd (n refl)

module _ (s : Scheduler) (row : StoredPlan) (db : Tables) where
  claim-Considered :
      (slot_at : ℕ) (reason : String) (run : Option RecoveryRun) (yaml : String)
      → Considered row db (claim s row slot_at reason run yaml db)
  unfolding claim
  claim-Considered slot_at reason run yaml =
      Says-Considered row _ run yaml db _ refl refl (claim_slot-SlotSays _ run yaml db)

  prepared-Considered :
      (slot_at : ℕ) (a : Answer) → Considered row db (queue_prepared s row slot_at a db)
  prepared-Considered slot_at (prepared prep) =
      claim-Considered slot_at _ (some prep.run) prep.plan_yaml
  prepared-Considered slot_at (already_running w active) = claim-Considered slot_at _ none ""
  prepared-Considered slot_at no_plan = Considered-nothing row db
  prepared-Considered slot_at unmarshallable = Considered-nothing row db

  act-Considered : (p : Plan) (d : Option Decision) → Considered row db (act s row p d db)
  act-Considered p none = Considered-nothing row db
  act-Considered p (some d) = elim (Bool-cases d.skip) [
    | inl b ↦ rw b (claim-Considered d.slot_at _ none "")
    | inr b ↦ rw b (prepared-Considered d.slot_at _)
  ]

  schedule-Considered :
      (p : Plan) (o : Option (Option Schedule)) → Considered row db (consider_schedule s row p o db)
  schedule-Considered p none = Considered-nothing row db
  schedule-Considered p (some sched) = act-Considered p _

  parsed-Considered : (o : Option Plan) → Considered row db (consider_parsed s row o db)
  parsed-Considered none = claim-Considered _ _ none ""
  parsed-Considered (some p) = schedule-Considered p _

  consider_plan-Considered : Considered row db (consider_plan s row db)
  unfolding consider_plan
  consider_plan-Considered = parsed-Considered _

leb-false : (a b : ℕ) → leb a b ≡ false → suc b ≤ a
leb-false a b h = ground arith

-- One plan more: the run that it may have queued is one of those that the cap leaves.
one_more :
    (b : Bool) (max depth before now after : ℕ)
    → suc depth ≤ max
    → now ≡ count_queued b before
    → after ≤ now + (max - count_queued b depth)
    → after ≤ before + (max - depth)
one_more true max depth before now after d n h = omega (arith, d, n, h)
one_more false max depth before now after d n h = omega (arith, d, n, h)

at_least : (a b : ℕ) → a ≤ a + b
at_least a b = omega arith

tick_plans-bounded :
    (s : Scheduler) (rows : List StoredPlan) (depth : ℕ) (db : Tables)
    → length (tick_plans s rows depth db).runs ≤ length db.runs + (s.max_queue_depth - depth)
unfolding tick_plans
tick_plans-bounded s [] depth db = omega arith
tick_plans-bounded s (row ∷ rows) depth db =
    let c = consider_plan-Considered s row db in
    let rest = tick_plans-bounded s rows _ (consider_plan s row db).1 in
    elim (Bool-cases (s.is_cancelled row)) [
      | inl b ↦ rw b (at_least (length db.runs) _)
      | inr b ↦ elim (Bool-cases (leb s.max_queue_depth depth)) [
        | inl d ↦ rw (b, d) (at_least (length db.runs) _)
        | inr d ↦
            rw (b, d)
              (one_more (consider_plan s row db).0 s.max_queue_depth depth _ _ _
                (leb-false s.max_queue_depth depth d) c.grown rest)
      ]
    ]

tick_plans-others :
    (s : Scheduler) (rows : List StoredPlan) (depth : ℕ) (db : Tables) (id : String)
    → All (λ r. id ≢ r.id) rows
    → slots_of id (tick_plans s rows depth db) ≡ slots_of id db
unfolding tick_plans
tick_plans-others s [] depth db id n = refl
tick_plans-others s (row ∷ rows) depth db id n =
    let c = consider_plan-Considered s row db in
    let rest =
      tick_plans-others s rows (count_queued (consider_plan s row db).0 depth)
        (consider_plan s row db).1 id n.1 in
    elim (Bool-cases (s.is_cancelled row)) [
      | inl b ↦ rw b refl
      | inr b ↦ elim (Bool-cases (leb s.max_queue_depth depth)) [
        | inl d ↦ rw (b, d) refl
        | inr d ↦ rw (b, d) (rest ∙ c.others id n.0)
      ]
    ]

-- A pass adds no more runs to the queue than the cap leaves above the depth measured at its start,
-- whatever the plans, the clock and the other answers of its surroundings are.
pub tick-bounded :
    (s : Scheduler) (plans : List StoredPlan) (db : Tables)
    → length (tick s plans db).runs ≤ length db.runs + (s.max_queue_depth - queue_depth db.runs)
unfolding tick
tick-bounded s plans db = tick_plans-bounded s (list_plans s plans) (queue_depth db.runs) db

abbrev pub has_plan : String → StoredPlan → Bool
has_plan id row = str_eq row.id id

-- The catalogue in the order of names of the database.
abbrev pub by_names : Scheduler → List StoredPlan → List StoredPlan
by_names s plans = sort_by (λ x y. s.name_before x.name y.name) plans

unfoldable pub in_first : ℕ → List StoredPlan → List StoredPlan
in_first zero rows = []
in_first (suc n) [] = []
in_first (suc n) (row ∷ rows) = row ∷ in_first n rows

take-in_first : (n : ℕ) (rows : List StoredPlan) → take n rows ≡ in_first n rows
unfolding take in_first
take-in_first zero rows = refl
take-in_first (suc n) [] = refl
take-in_first (suc n) (row ∷ rows) = ap (λ xs. row ∷ xs) (take-in_first n rows)

unnamed :
    (id : String) (rows : List StoredPlan)
    → any_where (has_plan id) rows ≡ false
    → All (λ r. id ≢ r.id) rows
unfolding any_where
unnamed id [] h = tt
unnamed id (row ∷ rows) h = split (has_plan id row) refl h (unnamed id rows)
  where
    split :
        (b : Bool)
        → has_plan id row ≡ b
        → (if b then true else any_where (has_plan id) rows) ≡ false
        → (any_where (has_plan id) rows ≡ false → All (λ r. id ≢ r.id) rows)
        → (id ≢ row.id) × All (λ r. id ≢ r.id) rows
    split true e k f = cc
    split false e k f = ((λ q. false≢true (sym e ∙ (eq_iff row.id id).1 (sym q))), f k)

-- A pass decides no slot of a plan that is not among the first fifty of the catalogue in the order of
-- names: a plan further down is never scheduled, nor recorded as skipped.
pub tick-unlisted :
    (s : Scheduler) (plans : List StoredPlan) (db : Tables) (id : String)
    → any_where (has_plan id) (in_first 50 (by_names s plans)) ≡ false
    → slots_of id (tick s plans db) ≡ slots_of id db
unfolding tick list_plans
tick-unlisted s plans db id n =
    tick_plans-others s (list_plans s plans) (queue_depth db.runs) db id
      (unnamed id _ (ap (any_where (has_plan id)) (take-in_first 50 (by_names s plans)) ∙ n))
