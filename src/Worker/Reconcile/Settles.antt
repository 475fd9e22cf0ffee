-- ===== src/Worker/Reconcile/Settles.antt =====
-- Every interrupted run is settled.
use text.Mathlib.TextPositions.{eq_refl}
use restorelab.Prelude.{
  ◌≡◌, refl, sym, ap, ◌∙◌, Bool, true, false, not, ◌&&◌, String, Option, none, some, List, [], ◌∷◌,
  All, Bool-cases, inl, inr, str_eq, if◌then◌else◌,
}
use restorelab.Core.Run.{RunState}
use restorelab.Store.Table.{update_where, find_where}
use restorelab.Store.Table.Laws.{All-update_where, All-updated}
use restorelab.Store.Row.{Row, QueuedRun, in_terminal_states, or_empty}
use restorelab.Store.Queue.{has_id, set_state, set_run_error, finish_lease, stale_runs}
use restorelab.Store.Held.{About}
use restorelab.Worker.Reconcile.{
  Site, Shop, statement, settle, after_delete, remove, settle_row, settle_interrupted, settle_all,
  reconcile, interrupted,
}

abbrev IsDone : Row → Type 0
IsDone r = in_terminal_states r.state ≡ true

-- In a terminal state and without a lease that could expire: no claim and no sweep sees it again.
abbrev IsOver : Row → Type 0
IsOver r = IsDone r × (r.lease_expires_at ≡ none)

abbrev pub Over : String → List Row → Type 0
Over id t = All (About id IsOver) t

-- A database that answers.
abbrev pub Answers : Site → Type 0
Answers e = (w : e.World) → (e.fails w).0 ≡ false

set_state-IsDone :
    (id : String) (st : RunState) (t : List Row)
    → in_terminal_states st ≡ true
    → All (About id IsDone) (set_state id st t)
unfolding set_state
set_state-IsDone id st t d =
    All-updated (About id IsDone) _ (λ r. record r { state = st }) t (λ r _ _. d)
      (λ r closed i.
        shut (str_eq r.id id) (in_terminal_states r.state) (ap (λ j. str_eq j id) i ∙ eq_refl id)
          closed)
  where
    shut : (a b : Bool) → a ≡ true → (a && not b) ≡ false → b ≡ true
    shut true true e h = refl
    shut true false e h = sym h
    shut false b e h = cc

-- Then the lease goes, whatever the statement before wrote.
finish_lease-IsOver :
    (id : String) (t : List Row) → All (About id IsDone) t → Over id (finish_lease id t)
unfolding finish_lease update_where
finish_lease-IsOver id [] h = tt
finish_lease-IsOver id (r ∷ t) h = elim (Bool-cases (str_eq r.id id)) [
  | inl same ↦ rw same ((λ i. (h.0 i, refl)), finish_lease-IsOver id t h.1)
  | inr other ↦ rw other (
    (λ i. absurd (differ (sym (ap (λ j. str_eq j id) i ∙ eq_refl id) ∙ other))),
    finish_lease-IsOver id t h.1,
  )
]
  where
    differ : true ≡ false → ⊥
    differ h = cc

module _ (id other : String) where
  Over-set_state :
      (st : RunState) (t : List Row)
      → in_terminal_states st ≡ true
      → Over id t
      → Over id (set_state other st t)
  unfolding set_state
  Over-set_state st t d h = All-update_where (About id IsOver) _ _ t (λ r _ k i. (d, (k i).1)) h

  Over-set_run_error :
      (reason : String) (t : List Row) → Over id t → Over id (set_run_error other reason t)
  unfolding set_run_error
  Over-set_run_error reason t h = All-update_where (About id IsOver) _ _ t (λ r _ k i. k i) h

  Over-finish_lease : (t : List Row) → Over id t → Over id (finish_lease other t)
  unfolding finish_lease
  Over-finish_lease t h = All-update_where (About id IsOver) _ _ t (λ r _ k i. ((k i).0, refl)) h

find-none : (id : String) (t : List Row) → find_where (has_id id) t ≡ none → Over id t
unfolding find_where
find-none id [] h = tt
find-none id (r ∷ t) h = elim (Bool-cases (str_eq r.id id)) [
  | inl same ↦ absurd (found (rw same at h))
  | inr other ↦ (
    (λ i. absurd (differ (sym (ap (λ j. str_eq j id) i ∙ eq_refl id) ∙ other))),
    find-none id t (rw other at h),
  )
]
  where
    found : some r ≡ none → ⊥
    found h = cc

    differ : true ≡ false → ⊥
    differ h = cc

module _ {e : Site} (answers : Answers e) where
  statement_lem : (f : List Row → List Row) (s : Shop e) → (statement f s).runs ≡ f s.runs
  unfolding statement
  statement_lem f s = rw (answers s.world) refl

  settle-Over :
      (id : String) (st : RunState) (reason : String) (s : Shop e)
      → in_terminal_states st ≡ true
      → Over id (settle id st reason s).runs
  unfolding settle set_run_error
  settle-Over id st reason s d =
      rw
        (
          statement_lem (finish_lease id)
              (statement (set_run_error id reason) (statement (set_state id st) s)),
          statement_lem (set_run_error id reason) (statement (set_state id st) s),
          statement_lem (set_state id st) s,
        )
        (finish_lease-IsOver id _ (
          All-update_where (About id IsDone) _ _ _ (λ r _ k i. k i)
            (set_state-IsDone id st s.runs d)))

  settle-keeps :
      (id other : String) (st : RunState) (reason : String) (s : Shop e)
      → in_terminal_states st ≡ true
      → Over id s.runs
      → Over id (settle other st reason s).runs
  unfolding settle
  settle-keeps id other st reason s d h =
      rw
        (
          statement_lem (finish_lease other)
              (statement (set_run_error other reason) (statement (set_state other st) s)),
          statement_lem (set_run_error other reason) (statement (set_state other st) s),
          statement_lem (set_state other st) s,
        )
        (Over-finish_lease id other _
          (Over-set_run_error id other reason _ (Over-set_state id other st s.runs d h)))

  -- Every way through `settleInterrupted` is one of these.
  abbrev Settling : String → Shop e → Shop e → Type 0
  Settling id s s' = Over id s'.runs × ((other : String) → Over other s.runs → Over other s'.runs)

  settle-Settling :
      (id : String) (st : RunState) (reason : String) (s : Shop e)
      → in_terminal_states st ≡ true
      → Settling id s (settle id st reason s)
  settle-Settling id st reason s d =
      (settle-Over id st reason s d, λ other h. settle-keeps other id st reason s d h)

  remove-Settling :
      (q : QueuedRun) (run : Row) (o : Option String) (s : Shop e)
      → Settling q.id s (remove q run o s)
  remove-Settling q run (some x) s = settle-Settling q.id RunState.failed _ s refl
  remove-Settling q run none s =
      removed (e.delete q.provider_id (or_empty run.temp_workload_id) s.world).0
    where
      removed :
          (o : Option String)
          → Settling q.id s (
              after_delete q run o (record s {
                world = (e.delete q.provider_id (or_empty run.temp_workload_id) s.world).1;
                deleted = or_empty run.temp_workload_id ∷ s.deleted;
              }))
      removed none = settle-Settling q.id RunState.failed _ _ refl
      removed (some x) = settle-Settling q.id RunState.cleanup_failed _ _ refl

  settle_row-Settling :
      (q : QueuedRun) (o : Option Row) (s : Shop e)
      → find_where (has_id q.id) s.runs ≡ o
      → Settling q.id s (settle_row q o s)
  settle_row-Settling q none s h = (find-none q.id s.runs h, λ other k. k)
  settle_row-Settling q (some run) s h = named (str_eq (or_empty run.temp_workload_id) "")
    where
      named :
          (b : Bool)
          → Settling q.id s (
              if b
              then settle q.id RunState.failed interrupted s
              else remove q run (e.unavailable q.provider_id) s)
      named true = settle-Settling q.id RunState.failed _ s refl
      named false = remove-Settling q run _ s

  settle_interrupted-Settling :
      (q : QueuedRun) (s : Shop e) → Settling q.id s (settle_interrupted q s)
  unfolding settle_interrupted
  settle_interrupted-Settling q s = rw (answers s.world) (settle_row-Settling q _ _ refl)

  -- What a sweep settled stays settled, and it settles what it does not skip.
  settle_all-keeps :
      (qs : List QueuedRun) (s : Shop e) (id : String)
      → Over id s.runs
      → Over id (settle_all qs s).runs
  unfolding settle_all
  settle_all-keeps [] s id h = h
  settle_all-keeps (q ∷ qs) s id h = settle_all-keeps qs _ id (step (e.in_flight q.id))
    where
      step : (b : Bool) → Over id (if b then s else settle_interrupted q s).runs
      step true = h
      step false = (settle_interrupted-Settling q s).1 id h

  abbrev Swept : Shop e → QueuedRun → Type 0
  Swept s q = e.in_flight q.id ≡ false → Over q.id s.runs

  settle_all-Swept : (qs : List QueuedRun) (s : Shop e) → All (Swept (settle_all qs s)) qs
  unfolding settle_all
  settle_all-Swept [] s = tt
  settle_all-Swept (q ∷ qs) s = (
    (λ out. settle_all-keeps qs _ q.id (rw out (settle_interrupted-Settling q s).0)),
    settle_all-Swept qs _,
  )

-- A sweep settles every interrupted run. Where the database answers, each run that `StaleRuns` returns
-- and that this worker is not executing is in a terminal state afterwards and has no lease, whatever
-- the providers answer.
pub reconcile-settles :
    (e : Site) (s : Shop e)
    → Answers e
    → All
        (λ q. e.in_flight q.id ≡ false → Over q.id (reconcile s).runs)
        (stale_runs e.nulls_first (e.now s.world).0 s.runs)
unfolding reconcile
reconcile-settles e s answers = rw (answers (e.now s.world).1) (settle_all-Swept answers _ _)
