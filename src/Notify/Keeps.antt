-- ===== src/Notify/Keeps.antt =====
-- What every statement of the dispatcher keeps, a whole pass keeps.
pub mod Invariant
pub mod Final
use restorelab.Prelude.{
  ℕ, zero, suc, ◌==◌, length, map_option, not, ◌≡◌, refl, sym, ap, ◌∙◌, ◌≤◌, ◌<◌, Bool, true, false,
  String, ◌⊎◌, inl, inr, Option, none, some, is_some, List, [], ◌∷◌, All, Bool-cases, Option-cases,
  arith, if◌then◌else◌,
}
use restorelab.Core.Float.{Float64}
use restorelab.Notify.Collapse.{Values, zeroed, no_verdict, decide_collapse}
use restorelab.Store.Row.{Row}
use restorelab.Store.Deliveries.{
  DeliveryState, Delivery, claim_run_for_notify, ended_at, create_delivery, due_deliveries,
  settle_delivery,
}
use restorelab.Prelude.Int.{ℤ}
use restorelab.Notify.Story.{Story, Transition}
use restorelab.Notify.Deliver.{
  PostError, Result, next_attempt, nth, or_scheduled, attempts, read_answer, abandoned,
}
use restorelab.Notify.Dispatcher.{
  Notification, Message, Env, Desk, read_clock, statement_fails, claim, too_old, measured,
  consider_values, judge, record_message, queue, queue_all, announce, or_values, older_than,
  keep_claim, past_age, compare_values, if_rendered, first_delivery, story_of, tell, consider,
  consider_all, decide_pass, resolve, message,
}
use restorelab.Notify.Attempt.{
  counted, settle_refused, settle_result, post_to, attempt_at, channel_for, settle, fail,
  record_result, post_row, attempt, attempt_all, deliver_pass, tick,
}

-- A row that is about to be attempted: three attempts at most were made.
abbrev pub IsOpen : Delivery → Type 0
IsOpen d = (d.state ≡ DeliveryState.pending) × (d.attempts ≤ 3)

-- What an attempt makes of a row.
abbrev pub Stands : DeliveryState → ℕ → Option ℕ → Type 0
Stands DeliveryState.pending made next = (made ≤ 3) × (is_some next ≡ true)
Stands DeliveryState.sent made next = (1 ≤ made) × (made ≤ 4) × (next ≡ none)
Stands DeliveryState.failed made next = (1 ≤ made) × (made ≤ 4) × (next ≡ none)

abbrev pub IsSound : Delivery → Type 0
IsSound d = Stands d.state d.attempts d.next_at

-- A predicate on the deliveries and the posts, and what it says of the rows that are due, which
-- creating a row, posting a due row and settling it keep.
pub record Stable (P : List Delivery → List String → Type 0) (R : Delivery → Type 0) : Type 0 where
  pub creates :
      (d : Delivery) (ds : List Delivery) (ps : List String)
      → IsOpen d
      → IsSound d
      → P ds ps
      → P (create_delivery d ds).1 ps
  pub opens :
      (now limit : ℕ) (ds : List Delivery) (ps : List String)
      → P ds ps
      → All (λ d. IsOpen d × R d) (due_deliveries now limit ds)
  pub posts :
      (row : Delivery) (ds : List Delivery) (ps : List String)
      → R row
      → P ds ps
      → P ds (row.id ∷ ps)
  pub settles :
      (row row' : Delivery) (ds : List Delivery) (ps : List String)
      → R row
      → row'.id ≡ row.id
      → IsSound row'
      → P ds ps
      → P (settle_delivery row' ds).1 ps

nth-room : (i : ℕ) (xs : List ℕ) (x : ℕ) → nth i xs ≡ some x → i < length xs
unfolding nth
nth-room i [] x h = cc
nth-room zero (y ∷ xs) x h = omega arith
nth-room (suc i) (y ∷ xs) x h = omega (arith, nth-room i xs x h)

-- A further attempt is the fourth at most.
next_attempt-room : (made : ℕ) (r : Result) (wait : ℕ) → next_attempt made r ≡ some wait → made ≤ 3
unfolding next_attempt
next_attempt-room made r wait h = tried r.retry h
  where
    scheduled :
        (asked : ℤ) (o : Option ℕ)
        → nth made attempts ≡ o
        → or_scheduled asked o ≡ some wait
        → made ≤ 3
    scheduled asked none e k = cc
    scheduled asked (some x) e k = omega (arith, nth-room made attempts x e)

    tried :
        (b : Bool)
        → (if not b then none else or_scheduled r.retry_at (nth made attempts)) ≡ some wait
        → made ≤ 3
    tried false k = cc
    tried true k = scheduled r.retry_at _ refl k

pub record Holds {e : Env} (P : List Delivery → List String → Type 0) (d : Desk e) : Type 0 where
  pub at : P d.deliveries d.posted

pub record Gives {e : Env} {A : Type 0} (P : List Delivery → List String → Type 0) (x : A × Desk e)
    : Type 0 where
  pub desk : Holds P x.1

module _ {e : Env} {P : List Delivery → List String → Type 0} where
  Holds-if : (b : Bool) {x y : Desk e} → Holds P x → Holds P y → Holds P (if b then x else y)
  Holds-if true h k = h
  Holds-if false h k = k

  Holds-clock : (d : Desk e) → Holds P d → Holds P (read_clock d).1
  unfolding read_clock
  Holds-clock d h = record { at = h.at }

  Holds-statement : (d : Desk e) → Holds P d → Holds P (statement_fails d).1
  unfolding statement_fails
  Holds-statement d h = record { at = h.at }

  Gives-if :
      {A : Type 0} (b : Bool) {x y : A × Desk e}
      → Gives P x
      → Gives P y
      → Gives P (if b then x else y)
  Gives-if true h k = h
  Gives-if false h k = k

  Gives-clock : (d : Desk e) → Holds P d → Gives P (read_clock d)
  Gives-clock d h = record { desk = Holds-clock d h }

  Gives-claim : (run : Row) (d : Desk e) → Holds P d → Gives P (claim run d)
  unfolding claim
  Gives-claim run d h =
      let k = Holds-statement _ (Holds-clock d h) in
      Gives-if (statement_fails (read_clock d).1).0
        {x = (false, (statement_fails (read_clock d).1).1)}
        {y = keep_claim
          (claim_run_for_notify run.id (read_clock d).0 (statement_fails (read_clock d).1).1.runs)
          (statement_fails (read_clock d).1).1}
        (record { desk = k }) (record { desk = record { at = k.at } })

  Gives-older :
      (run : Row) (age : Option ℕ) (d : Desk e) → Holds P d → Gives P (older_than run age d)
  Gives-older run none d h = record { desk = h }
  Gives-older run (some age) d h =
      Gives-if (ended_at run == 0) {x = (true, d)} {y = past_age age (ended_at run) (read_clock d)}
        (record { desk = h }) (record { desk = Holds-clock d h })

  Gives-too_old : (run : Row) (d : Desk e) → Holds P d → Gives P (too_old run d)
  unfolding too_old
  Gives-too_old run d h = Gives-older run _ d h

  Holds-measured : (id : String) (d : Desk e) → Holds P d → Holds P (measured id d).1
  unfolding measured
  Holds-measured id d h = record { at = h.at }

  Gives-consider_values :
      (run : Row) (current : Story) (previous : Option Story) (before : Option Row) (d : Desk e)
      → Holds P d
      → Gives P (consider_values run current previous before d)
  unfolding consider_values
  Gives-consider_values run current previous none d h = record { desk = h }
  Gives-consider_values run current previous (some before) d h =
      let k = Holds-measured run.id d h in
      Gives-if (no_verdict run.result) {x = (none, d)}
        {y = compare_values run current previous before (measured run.id d)} (record { desk = h })
        (compared (measured run.id d) k)
    where
      compared :
          (m : Values Float64 × Desk e)
          → Holds P m.1
          → Gives P (compare_values run current previous before m)
      compared (values, d') k =
          Gives-if (not (zeroed values)) {x = (none, d')}
            {y = (
              decide_collapse e.format run.state current previous values (measured before.id d').0,
              (measured before.id d').1,
            )}
            (record { desk = k }) (record { desk = Holds-measured before.id d' k })

  Gives-or_values :
      (run : Row) (current : Story) (previous : Option Story) (before : Option Row)
      (o : Option Transition) (d : Desk e)
      → Holds P d
      → Gives P (or_values run current previous before o d)
  Gives-or_values run current previous before (some t) d h = record { desk = h }
  Gives-or_values run current previous before none d h =
      Gives-consider_values run current previous before d h

  Gives-judge :
      (run : Row) (before : Option Row) (unevaluable : Bool) (d : Desk e)
      → Holds P d
      → Gives P (judge run (before, unevaluable) d)
  unfolding judge
  Gives-judge run before unevaluable d h = Gives-or_values run _ _ before _ d h

module _ {e : Env} {P : List Delivery → List String → Type 0} {R : Delivery → Type 0}
    (stable : Stable P R) where
  Holds-created :
      (run : Row) (msg : Message) (ch : Notification) (body : String) (now : ℕ) (id : String)
      (d : Desk e)
      → Holds P d
      → Holds P (record d {
        deliveries = (create_delivery (first_delivery run msg ch body now id) d.deliveries).1;
      })
  Holds-created run msg ch body now id d h = record {
    at =
        stable.creates (first_delivery run msg ch body now id) _ _ (refl, omega arith)
          (omega arith, refl) h.at;
  }

  Holds-record :
      (run : Row) (msg : Message) (ch : Notification) (body : String) (d : Desk e)
      → Holds P d
      → Holds P (record_message run msg ch body d)
  unfolding record_message
  Holds-record run msg ch body d h =
      let k = Holds-clock d h in
      let k' = Holds-statement _ (record { at = k.at }) in
      Holds-if _ k' (Holds-created run msg ch body _ _ _ k')

  Holds-rendered :
      (run : Row) (msg : Message) (ch : Notification) (o : Option String) (d : Desk e)
      → Holds P d
      → Holds P (if_rendered run msg ch o d)
  Holds-rendered run msg ch none d h = h
  Holds-rendered run msg ch (some body) d h = Holds-record run msg ch body d h

  Holds-queue :
      (run : Row) (msg : Message) (ch : Notification) (d : Desk e)
      → Holds P d
      → Holds P (queue run msg ch d)
  unfolding queue
  Holds-queue run msg ch d h = Holds-rendered run msg ch _ d h

  Holds-queue_all :
      (run : Row) (msg : Message) (chs : List Notification) (d : Desk e)
      → Holds P d
      → Holds P (queue_all run msg chs d)
  unfolding queue_all
  Holds-queue_all run msg [] d h = h
  Holds-queue_all run msg (ch ∷ chs) d h =
      Holds-if _ h (Holds-queue_all run msg chs _ (Holds-queue run msg ch d h))

  Holds-announce :
      (run : Row) (chs : List Notification) (o : Option Transition) (d : Desk e)
      → Holds P d
      → Holds P (announce run chs (o, d))
  Holds-announce run chs none d h = h
  Holds-announce run chs (some t) d h = Holds-queue_all run _ chs d h

  Holds-tell :
      (run : Row) (chs : List Notification) (d : Desk e) → Holds P d → Holds P (tell run chs d)
  unfolding tell
  Holds-tell run chs d h =
      let k = Holds-statement d h in
      Holds-if _ k (Holds-announce run chs _ _ (Gives-judge run _ _ _ k).desk)

  Holds-consider :
      (run : Row) (chs : List Notification) (d : Desk e) → Holds P d → Holds P (consider run chs d)
  unfolding consider
  Holds-consider run chs d h =
      let k = (Gives-claim run d h).desk in
      let k' = (Gives-too_old run _ k).desk in
      Holds-if _ (Holds-if _ k' (Holds-tell run chs _ k')) k

  Holds-consider_all :
      (runs : List Row) (chs : List Notification) (d : Desk e)
      → Holds P d
      → Holds P (consider_all runs chs d)
  unfolding consider_all
  Holds-consider_all [] chs d h = h
  Holds-consider_all (run ∷ runs) chs d h =
      Holds-if _ h (Holds-consider_all runs chs _ (Holds-consider run chs d h))

  Holds-decide_pass :
      (chs : List Notification) (d : Desk e) → Holds P d → Holds P (decide_pass chs d)
  unfolding decide_pass
  Holds-decide_pass chs d h =
      let k = Holds-statement d h in Holds-if _ k (Holds-consider_all _ chs _ k)

  -- The rest of a pass: a row that was due is attempted.
  module _ (row : Delivery) (was_open : IsOpen row) (due : R row) where
    Holds-settle :
        (row' : Delivery) (d : Desk e)
        → row'.id ≡ row.id
        → IsSound row'
        → Holds P d
        → Holds P (settle row' d)
    unfolding settle
    Holds-settle row' d same sound h =
        let k = Holds-statement d h in
        Holds-if (statement_fails d).0 {x = (statement_fails d).1}
          {y = record (statement_fails d).1 {
            deliveries = (settle_delivery row' (statement_fails d).1.deliveries).1;
          }}
          k (record { at = stable.settles row row' _ _ due same sound k.at })

    Holds-fail : (reason : String) (d : Desk e) → Holds P d → Holds P (fail row reason d)
    unfolding fail
    Holds-fail reason d h = Holds-settle _ d refl (omega arith, omega (arith, was_open.1), refl) h

    Holds-refused :
        (r : Result) (reason : String) (wait : Option ℕ) (d : Desk e)
        → next_attempt (suc row.attempts) r ≡ wait
        → Holds P d
        → Holds P (settle_refused (counted row r) reason wait d)
    Holds-refused r reason none d next h =
        Holds-settle _ d refl (omega arith, omega (arith, was_open.1), refl) h
    Holds-refused r reason (some wait) d next h =
        Holds-settle _ _ refl (next_attempt-room (suc row.attempts) r wait next, refl)
          (Holds-clock d h)

    Holds-result :
        (target : String) (r : Result) (x : Option PostError) (d : Desk e)
        → Holds P d
        → Holds P (settle_result row target r x d)
    Holds-result target r none d h =
        Holds-settle _ _ refl (omega arith, omega (arith, was_open.1), refl) (Holds-clock d h)
    Holds-result target r (some x) d h = Holds-refused r _ _ d refl h

    Holds-recorded :
        (target : String) (r : Result) (d : Desk e)
        → Holds P d
        → Holds P (record_result row target r d)
    unfolding record_result
    Holds-recorded target r d h =
        Holds-if (abandoned (e.ended d.world) r) h (Holds-result target r _ d h)

    Holds-post : (target : String) (d : Desk e) → Holds P d → Holds P (post_row row target d)
    unfolding post_row
    Holds-post target d h =
        let (answer, w) = e.post target row.payload d.world in
        Holds-recorded target (read_answer (e.ended w) answer)
          (record d { world = w; posted = row.id ∷ d.posted })
          (record { at = stable.posts row _ _ due h.at })

    Holds-post_to :
        (target : String ⊎ String) (d : Desk e) → Holds P d → Holds P (post_to row target d)
    Holds-post_to (inl x) d h = Holds-fail x d h
    Holds-post_to (inr target) d h = Holds-post target d h

    Holds-attempt_at :
        (ch : Option Notification) (d : Desk e) → Holds P d → Holds P (attempt_at row ch d)
    Holds-attempt_at none d h = Holds-fail _ d h
    Holds-attempt_at (some ch) d h = Holds-post_to _ d h

    Holds-attempt : (chs : List Notification) (d : Desk e) → Holds P d → Holds P (attempt chs row d)
    unfolding attempt
    Holds-attempt chs d h = Holds-attempt_at _ d h

  Holds-attempt_all :
      (chs : List Notification) (rows : List Delivery) (d : Desk e)
      → All (λ r. IsOpen r × R r) rows
      → Holds P d
      → Holds P (attempt_all chs rows d)
  unfolding attempt_all
  Holds-attempt_all chs [] d all h = h
  Holds-attempt_all chs (row ∷ rows) d all h =
      Holds-if _ h (Holds-attempt_all chs rows _ all.1 (Holds-attempt row all.0.0 all.0.1 chs d h))

  Holds-deliver_pass :
      (chs : List Notification) (d : Desk e) → Holds P d → Holds P (deliver_pass chs d)
  unfolding deliver_pass
  Holds-deliver_pass chs d h =
      let k = Holds-statement _ (Holds-clock d h) in
      Holds-if _ k (Holds-attempt_all chs _ _ (stable.opens _ _ _ _ k.at) k)

  pub Holds-tick : (d : Desk e) → Holds P d → Holds P (tick d)
  unfolding tick
  Holds-tick d h = Holds-deliver_pass _ _ (Holds-decide_pass _ _ (record { at = h.at }))
