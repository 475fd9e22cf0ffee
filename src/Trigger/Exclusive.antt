-- ===== src/Trigger/Exclusive.antt =====
-- One drill per workload: what the guard of `Prepare` sees, and what it does not.
use mathlib.Core.Option.{some-injective}
use text.Mathlib.TextPositions.{eq_refl}
use restorelab.Prelude.{
  ◌≡◌, ◌≢◌, refl, sym, ap, subst, ◌∙◌, inl, inr, Bool, true, false, ◌&&◌, String, Option, none,
  some, map_option, List, [], ◌∷◌, ◌++◌, All, All-weaken, ltb, not, eq_iff, Bool-cases,
  Option-cases, str_eq,
}
use restorelab.Plan.{Plan}
use restorelab.Store.Table.{select_where, least, least_of}
use restorelab.Core.Run.{terminal}
use restorelab.Store.Table.Laws.{All-select_where, All-least, select_where-holds}
use restorelab.Store.Row.{Row, in_terminal_states-terminal}
use restorelab.Store.Queue.{
  active_run_for_workload, open_run, inserted, insert_row, enqueue, queued_row,
}
use restorelab.Trigger.{
  Request, already_running, prepare, prepare_plan, unless_active, snapshot, enqueue_prepared,
  trigger, queued_run,
}

abbrev pub drills : String → Row → Bool
drills workload r = str_eq r.source_workload_id workload && open_run r

least-some : (before : Row → Row → Bool) (xs : List Row) (x : Row) → least before (x ∷ xs) ≢ none
unfolding least
least-some before xs x h = go (least before xs) h
  where
    go : (o : Option Row) → least_of before x o ≡ none → ⊥
    go none e = cc
    go (some y) e = cc

select-nonempty :
    (before : Row → Row → Bool) (p : Row → Bool) (xs : List Row) (x : Row)
    → p x ≡ true
    → least before (select_where p (xs ++ x ∷ [])) ≢ none
unfolding select_where
select-nonempty before p [] x h = rw h (least-some before [] x)
select-nonempty before p (y ∷ ys) x h = elim (Bool-cases (p y)) [
  | inl b ↦ rw b (least-some before (select_where p (ys ++ x ∷ [])) y)
  | inr b ↦ rw b (select-nonempty before p ys x h)
]

-- A table that a drill of the workload stands last in has an active run.
active-last :
    (workload : String) (t : List Row) (r : Row)
    → drills workload r ≡ true
    → active_run_for_workload workload (t ++ r ∷ []) ≢ none
unfolding active_run_for_workload
active-last workload t r h e = select-nonempty _ (drills workload) t r h (go _ e)
  where
    go : (o : Option Row) → map_option (λ x. x.id) o ≡ none → o ≡ none
    go none k = refl
    go (some x) k = cc

abbrev Queued : Request → List Row → List Row → Plan → Type 0
Queued req t t' p = (yaml : String) × (t' ≡ t ++ queued_row (queued_run p req) yaml req.at ∷ [])

-- What an accepted request has queued.
trigger-Queued :
    (marshal : Plan → Option String) (p : Plan) (req : Request) (t t' : List Row)
    → req.plan ≡ some p
    → trigger marshal req t ≡ some t'
    → Queued req t t' p
unfolding trigger prepare enqueue insert_row
trigger-Queued marshal p req t t' e h = planned req.plan e h
  where
    written : (b : Bool) (r : Row) → inserted b r t ≡ some t' → t' ≡ t ++ r ∷ []
    written true r k = cc
    written false r k = sym (some-injective _ _ k)

    marshalled :
        (q : Plan) (o : Option String)
        → enqueue_prepared req (snapshot marshal q req o) t ≡ some t'
        → Queued req t t' q
    marshalled q none k = cc
    marshalled q (some yaml) k = (yaml, written _ _ k)

    alone :
        (q : Plan) (o : Option String)
        → enqueue_prepared req (unless_active marshal q req o) t ≡ some t'
        → Queued req t t' q
    alone q none k = marshalled q (marshal q) k
    alone q (some active) k = cc

    planned :
        (o : Option Plan)
        → o ≡ some p
        → enqueue_prepared req (prepare_plan marshal req o t) t ≡ some t'
        → Queued req t t' p
    planned none q k = cc
    planned (some p0) q k = subst (Queued req t t') (some-injective _ _ q) (alone p0 _ k)

-- A row that stands in a table.
pub data IsRow (r : Row) : List Row → Type 0 where
  first : (t : List Row) → IsRow r (r ∷ t)
  later : (x : Row) (t : List Row) → IsRow r t → IsRow r (x ∷ t)

-- The table has a run of the workload with the id, in a state that is not terminal.
pub record HasOpen (workload id : String) (t : List Row) : Type 0 where
  pub row : Row
  pub stands : IsRow row t
  pub named : row.id ≡ id
  pub of_workload : row.source_workload_id ≡ workload
  pub unsettled : terminal row.state ≡ false

all-rows : (t : List Row) → All (λ r. IsRow r t) t
all-rows [] = tt
all-rows (r ∷ t) = (first t, All-weaken t (λ x k. later r t k) (all-rows t))

both_true : (a b : Bool) → (a && b) ≡ true → (a ≡ true) × (b ≡ true)
both_true true b h = (refl, h)
both_true false b h = cc

found-HasOpen :
    (workload id : String) (t : List Row)
    → active_run_for_workload workload t ≡ some id
    → HasOpen workload id t
unfolding active_run_for_workload
found-HasOpen workload id t h = go (least older (select_where (drills workload) t)) refl h
  where
    older : Row → Row → Bool
    older x y = ltb x.started_at y.started_at

    go :
        (o : Option Row)
        → least older (select_where (drills workload) t) ≡ o
        → map_option (λ r. r.id) o ≡ some id
        → HasOpen workload id t
    go none e k = cc
    go (some r) e k =
        let open_one = both_true _ _ (
          All-least (λ x. drills workload x ≡ true) older _ r
            (select_where-holds (drills workload) t) e) in
        record {
          row = r;
          stands =
              All-least (λ x. IsRow x t) older _ r
                (All-select_where _ (drills workload) t (all-rows t)) e;
          named = some-injective _ _ k;
          of_workload = (eq_iff r.source_workload_id workload).0 open_one.0;
          unsettled = sym (in_terminal_states-terminal r.state) ∙ not_true _ open_one.1;
        }
      where
        not_true : (b : Bool) → not b ≡ true → b ≡ false
        not_true true q = cc
        not_true false q = refl

-- Requests that come one after the other exclude each other: once a request has queued a drill, the
-- next one for the same workload is refused with the id of a run of that workload in the table, in a
-- state that is not terminal, whatever its plan is.
pub trigger-exclusive :
    (marshal : Plan → Option String) (p p' : Plan) (req req' : Request) (t t' : List Row)
    → req.plan ≡ some p
    → req'.plan ≡ some p'
    → p'.workload.id ≡ p.workload.id
    → trigger marshal req t ≡ some t'
    → (active : String) × ((prepare marshal req' t' ≡ already_running p.workload.id active)
        × HasOpen p.workload.id active t')
unfolding prepare queued_row queued_run
trigger-exclusive marshal p p' req req' t t' e e' same h =
    let (yaml, q) = trigger-Queued marshal p req t t' e h in
    elim (Option-cases (active_run_for_workload p.workload.id t')) [
      | inl n ↦ absurd (
          active-last p.workload.id t (queued_row (queued_run p req) yaml req.at)
            (rw (eq_refl p.workload.id) refl)
            (ap (active_run_for_workload p.workload.id) (sym q) ∙ n))
      | inr a ↦ (a.0, (rw (e', same, a.1) refl, found-HasOpen p.workload.id a.0 t' a.1))
    ]
