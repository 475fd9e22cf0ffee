-- ===== src/Worker/Reconcile.antt =====
-- internal/worker/reconcile.go, and `fail` and `mirrorState` of run.go.
pub mod Settles
pub mod Spares
use Prim.Native.String.{◌++◌}
use restorelab.Prelude.{
  ℕ, Bool, true, false, String, Option, none, some, List, [], ◌∷◌, str_eq, if◌then◌else◌,
}
use restorelab.Core.Run.{RunState}
use restorelab.Store.Table.{find_where}
use restorelab.Store.Row.{Row, QueuedRun, or_empty}
use restorelab.Store.Queue.{has_id, set_state, set_run_error, finish_lease, stale_runs}

-- What surrounds a worker: the clock, the providers and the database, whose next statement `fails`.
-- `delete` is the provider's, and answers with the text of its error.
pub record Site : Type 1 where
  pub World : Type 0
  pub now : World → ℕ × World
  pub fails : World → Bool × World
  pub unavailable : String → Option String
  pub delete : String → String → World → Option String × World
  pub in_flight : String → Bool
  pub nulls_first : Bool

-- The table of runs, and the workloads whose removal was asked for, newest first.
pub record Shop (e : Site) : Type 0 where
  pub world : e.World
  pub runs : List Row
  pub deleted : List String

abbrev pub interrupted : String
interrupted = "interrupted: the worker running this drill did not survive"

module _ {e : Site} where
  unfoldable pub statement : (List Row → List Row) → Shop e → Shop e
  statement f s =
      let (bad, w) = e.fails s.world in
      record s { world = w; runs = if bad then s.runs else f s.runs }

  -- `settle`: each of its statements is made whatever became of the one before.
  unfoldable pub settle : String → RunState → String → Shop e → Shop e
  settle id state reason s =
      statement (finish_lease id)
        (statement (set_run_error id reason) (statement (set_state id state) s))

  abbrev pub after_delete : QueuedRun → Row → Option String → Shop e → Shop e
  after_delete q run none s = settle q.id RunState.failed interrupted s
  after_delete q run (some x) s =
      settle q.id RunState.cleanup_failed
        (interrupted
          ++ "; ORPHANED WORKLOAD: "
          ++ or_empty run.temp_workload_id
          ++ " on node "
          ++ or_empty run.node
          ++ " could not be removed: "
          ++ x)
        s

  abbrev pub remove : QueuedRun → Row → Option String → Shop e → Shop e
  remove q run (some x) s =
      settle q.id RunState.failed
        (interrupted
          ++ "; the temporary workload "
          ++ or_empty run.temp_workload_id
          ++ " on node "
          ++ or_empty run.node
          ++ " could not be reached to be removed: "
          ++ x)
        s
  remove q run none s =
      let (answer, w) = e.delete q.provider_id (or_empty run.temp_workload_id) s.world in
      after_delete q run answer
        (record s { world = w; deleted = or_empty run.temp_workload_id ∷ s.deleted })

  abbrev pub settle_row : QueuedRun → Option Row → Shop e → Shop e
  settle_row q none s = s
  settle_row q (some run) s =
      if str_eq (or_empty run.temp_workload_id) ""
      then settle q.id RunState.failed interrupted s
      else remove q run (e.unavailable q.provider_id) s

  -- `settleInterrupted`
  unfoldable pub settle_interrupted : QueuedRun → Shop e → Shop e
  settle_interrupted q s =
      let (bad, w) = e.fails s.world in
      let s' = record s { world = w } in
      if bad then s' else settle_row q (find_where (has_id q.id) s.runs) s'

  unfoldable pub settle_all : List QueuedRun → Shop e → Shop e
  settle_all [] s = s
  settle_all (q ∷ qs) s = settle_all qs (if e.in_flight q.id then s else settle_interrupted q s)

  unfoldable pub reconcile : Shop e → Shop e
  reconcile s =
      let (now, w) = e.now s.world in
      let (bad, w') = e.fails w in
      let s' = record s { world = w' } in
      if bad then s' else settle_all (stale_runs e.nulls_first now s.runs) s'

  -- `fail` of a run that could not be started.
  unfoldable pub fail : String → Shop e → Shop e
  fail id s = statement (finish_lease id) (statement (set_state id RunState.failed) s)
