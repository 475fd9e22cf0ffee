-- ===== src/Store/Slots/Once.antt =====
-- A slot is decided once, a refused decision writes nothing, and a queued slot has its run.
use mathlib.Core.Bool.{false≢true}
use text.Mathlib.TextPositions.{eq_refl}
use restorelab.Prelude.{
  ℕ, ◌≡◌, ◌≢◌, refl, sym, ◌∙◌, inl, inr, Bool, true, false, not, ◌&&◌, All, str_eq, eq_iff, String,
  Option, none, some, List, [], ◌∷◌, ◌++◌, Bool-cases, arith, if◌then◌else◌,
}
use restorelab.Core.Errors.{Error}
use restorelab.Core.Run.{RecoveryRun}
use restorelab.Store.Table.{any_where}
use restorelab.Store.Table.Laws.{any_where-append, any_where-select_where}
use restorelab.Store.Row.{Row}
use restorelab.Store.Queue.{inserted, insert_row, enqueue, queued_row}
use restorelab.Store.Operations.{Operation, apply}
use restorelab.Store.Slots.{
  Slot, SlotOutcome, Tables, SlotClaim, decided, duplicate, no_run, refused, is_slot, insert_slot,
  refers, is_plan, drop_plan, with_runs, claim_queued, claim_outcome, claim_slot,
}

-- What the scheduler and everybody else do to the two tables. A new plan has an id that is not used.
pub data Transaction : Type 0 where
  create_plan delete_plan : String → Transaction
  claim : Slot → Option RecoveryRun → String → Transaction
  write : Operation → Transaction

unfoldable pub commit : (Error → String) → Transaction → Tables → Tables
commit text (claim slot run yaml) db = (claim_slot slot run yaml db).1
commit text (create_plan id) db = record db { plan_ids = id ∷ db.plan_ids }
commit text (delete_plan id) db = drop_plan id db
commit text (write op) db = record db { runs = apply text op db.runs }

unfoldable pub commit_all : (Error → String) → List Transaction → Tables → Tables
unfolding commit
commit_all text [] db = db
commit_all text (tx ∷ txs) db = commit_all text txs (commit text tx db)

-- A transaction that does not delete the plan.
abbrev pub IsSparing : String → Transaction → Type 0
IsSparing plan_id (delete_plan id) = id ≢ plan_id
IsSparing plan_id _ = Unit

-- The table of runs with the run that a slot queues.
abbrev pub with_run : SlotOutcome → Option RecoveryRun → String → ℕ → List Row → List Row
with_run SlotOutcome.queued (some run) yaml at t = t ++ queued_row run yaml at ∷ []
with_run SlotOutcome.queued none yaml at t = t
with_run SlotOutcome.skipped run yaml at t = t

-- What `ClaimSlot` answers on tables, and what it leaves of them.
pub data SlotSays (slot : Slot) (run : Option RecoveryRun) (yaml : String) (db : Tables)
    : SlotClaim × Tables → Type 0 where
  took :
      (runs : List Row)
      → runs ≡ with_run slot.outcome run yaml slot.decided_at db.runs
      → any_where (is_slot slot.plan_id slot.slot_at) db.slots ≡ false
      → SlotSays slot run yaml db
          (decided, record db { runs = runs; slots = db.slots ++ slot ∷ [] })
  kept : (c : SlotClaim) → c ≢ decided → SlotSays slot run yaml db (c, db)

module _ (slot : Slot) (run : Option RecoveryRun) (yaml : String) (db : Tables) where
  insert_slot-Says :
      (runs : List Row)
      → runs ≡ with_run slot.outcome run yaml slot.decided_at db.runs
      → SlotSays slot run yaml db (insert_slot slot db (record db { runs = runs }))
  insert_slot-Says runs e =
      elim (Bool-cases (any_where (is_slot slot.plan_id slot.slot_at) db.slots)) [
        | inl b ↦ rw b (kept duplicate (λ e. cc))
        | inr b ↦ elim (Bool-cases (refers slot (record db { runs = runs }))) [
          | inl c ↦ rw (b, c) (took runs e b)
          | inr c ↦ rw (b, c) (kept refused (λ e. cc))
        ]
      ]

  inserted-Says :
      (r : Row) (b : Bool)
      → db.runs ++ r ∷ [] ≡ with_run slot.outcome run yaml slot.decided_at db.runs
      → SlotSays slot run yaml db (with_runs slot db (inserted b r db.runs))
  inserted-Says r true e = kept refused (λ e. cc)
  inserted-Says r false e = insert_slot-Says _ e

claim_outcome-Says :
    (slot : Slot) (o : SlotOutcome) (run : Option RecoveryRun) (yaml : String) (db : Tables)
    → slot.outcome ≡ o
    → SlotSays slot run yaml db (claim_outcome o slot run yaml db)
unfolding claim_queued enqueue insert_row
claim_outcome-Says slot SlotOutcome.queued none yaml db e = kept no_run (λ e. cc)
claim_outcome-Says slot SlotOutcome.queued (some run) yaml db e =
    elim (Bool-cases (is_plan run.plan_id db.plan_ids)) [
      | inl b ↦ rw b (inserted-Says slot (some run) yaml db _ _ (rw e refl))
      | inr b ↦ rw b (kept refused (λ e. cc))
    ]
claim_outcome-Says slot SlotOutcome.skipped run yaml db e =
    insert_slot-Says slot run yaml db db.runs (rw e refl)

-- A slot decided now was not decided before and is written behind the others, with the one run that a
-- queued slot queues; any other answer leaves both tables as they were.
pub claim_slot-SlotSays :
    (slot : Slot) (run : Option RecoveryRun) (yaml : String) (db : Tables)
    → SlotSays slot run yaml db (claim_slot slot run yaml db)
unfolding claim_slot
claim_slot-SlotSays slot run yaml db = claim_outcome-Says slot slot.outcome run yaml db refl

and_left : (a b : Bool) → (a && b) ≡ true → a ≡ true
and_left true b k = refl
and_left false b k = k

module _ (plan_id : String) (slot_at : ℕ) where
  abbrev IsDecided : Tables → Type 0
  IsDecided db = any_where (is_slot plan_id slot_at) db.slots ≡ true

  Says-IsDecided :
      (slot : Slot) (run : Option RecoveryRun) (yaml : String) (db : Tables)
      (o : SlotClaim × Tables)
      → SlotSays slot run yaml db o
      → IsDecided db
      → IsDecided o.1
  Says-IsDecided slot run yaml db _ (took runs e n) d =
      any_where-append (is_slot plan_id slot_at) db.slots _ d
  Says-IsDecided slot run yaml db _ (kept c n) d = d

  other :
      (id : String)
      → id ≢ plan_id
      → (s : Slot) → is_slot plan_id slot_at s ≡ true
      → not (str_eq s.plan_id id) ≡ true
  other id n s h = elim (Bool-cases (str_eq s.plan_id id)) [
    | inl e ↦
        absurd (n (sym ((eq_iff s.plan_id id).0 e) ∙ (eq_iff s.plan_id plan_id).0 (and_left _ _ h)))
    | inr e ↦ rw e refl
  ]

  commit_all-IsDecided :
      (text : Error → String) (txs : List Transaction) (db : Tables)
      → All (IsSparing plan_id) txs
      → IsDecided db
      → IsDecided (commit_all text txs db)
  unfolding commit_all commit drop_plan
  commit_all-IsDecided text [] db k d = d
  commit_all-IsDecided text (tx ∷ txs) db k d = commit_all-IsDecided text txs _ k.1 (step tx k.0)
    where
      step : (tx : Transaction) → IsSparing plan_id tx → IsDecided (commit text tx db)
      step (create_plan id) k = d
      step (delete_plan id) n =
          any_where-select_where (is_slot plan_id slot_at) (λ s. not (str_eq s.plan_id id)) db.slots
            (other id n) d
      step (claim slot run yaml) k =
          Says-IsDecided slot run yaml db _ (claim_slot-SlotSays slot run yaml db) d
      step (write op) k = d

any_where-last :
    (q : Slot → Bool) (xs : List Slot) (s : Slot) → q s ≡ true → any_where q (xs ++ s ∷ []) ≡ true
unfolding any_where
any_where-last q [] s h = rw h refl
any_where-last q (x ∷ xs) s h = either (q x) (any_where-last q xs s h)
  where
    either : {r : Bool} (b : Bool) → r ≡ true → (if b then true else r) ≡ true
    either true k = refl
    either false k = k

is_slot_self : (s : Slot) → is_slot s.plan_id s.slot_at s ≡ true
is_slot_self s = rw (eq_refl s.plan_id) (ground arith)

Says-decided :
    (slot : Slot) (run : Option RecoveryRun) (yaml : String) (db : Tables) (o : SlotClaim × Tables)
    → SlotSays slot run yaml db o
    → o.0 ≡ decided
    → IsDecided slot.plan_id slot.slot_at o.1
Says-decided slot run yaml db _ (took runs w n) e =
    any_where-last _ db.slots slot (is_slot_self slot)
Says-decided slot run yaml db _ (kept c n) e = absurd (n e)

Says-clash :
    (slot : Slot) (run : Option RecoveryRun) (yaml : String) (db : Tables) (o : SlotClaim × Tables)
    → SlotSays slot run yaml db o
    → IsDecided slot.plan_id slot.slot_at db
    → o.0 ≢ decided
Says-clash slot run yaml db _ (took runs w n) d = λ e. false≢true (sym n ∙ d)
Says-clash slot run yaml db _ (kept c n) d = n

-- A slot that a transaction has decided, queued or skipped, is not decided again as long as its plan is
-- not deleted: whatever else is written to the queue, the slots and the catalogue in between, a claim
-- for the same plan and instant is refused.
pub claim_slot-once :
    (text : Error → String) (slot : Slot) (run : Option RecoveryRun) (yaml : String) (db : Tables)
    (txs : List Transaction) (slot' : Slot) (run' : Option RecoveryRun) (yaml' : String)
    → (claim_slot slot run yaml db).0 ≡ decided
    → slot'.plan_id ≡ slot.plan_id
    → slot'.slot_at ≡ slot.slot_at
    → All (IsSparing slot.plan_id) txs
    → (claim_slot slot' run' yaml' (commit_all text txs (claim_slot slot run yaml db).1)).0
      ≢ decided
claim_slot-once text slot run yaml db txs slot' run' yaml' h p t spared =
    Says-clash slot' run' yaml' _ _ (claim_slot-SlotSays slot' run' yaml' _) (
      rw (p, t)
        (commit_all-IsDecided slot.plan_id slot.slot_at text txs _ spared
          (Says-decided slot run yaml db _ (claim_slot-SlotSays slot run yaml db) h)))
