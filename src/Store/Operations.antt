-- ===== src/Store/Operations.antt =====
-- The statements that change the table of runs, as one step and as a sequence of steps: what the API,
-- the scheduler and the workers do to the queue, in the order in which the database runs it.
use restorelab.Prelude.{ℕ, Bool, String, Option, none, some, List, [], ◌∷◌}
use restorelab.Core.Run.{RunState, RecoveryRun}
use restorelab.Core.Errors.{Error}
use restorelab.Store.Row.{Row}
use restorelab.Store.Queue as Queue

pub data Operation : Type 0 where
  enqueue : RecoveryRun → String → ℕ → Operation
  create_run : RecoveryRun → String → Operation
  update_run : RecoveryRun → Operation
  set_temp_workload : String → String → String → Operation
  set_state : String → RunState → Operation
  set_run_error : String → String → Operation
  cancel_waiting ask_to_stop : String → ℕ → Operation
  claim_run : Bool → String → ℕ → ℕ → Operation
  renew_lease : String → String → ℕ → Operation
  finish_lease : String → Operation

-- A refused insert changes nothing.
abbrev pub or_keep : Option (List Row) → List Row → List Row
or_keep none t = t
or_keep (some t') t = t'

unfoldable pub apply : (Error → String) → Operation → List Row → List Row
apply text (Operation.enqueue run yaml at) t = or_keep (Queue.enqueue run yaml at t) t
apply text (Operation.create_run run yaml) t = or_keep (Queue.create_run text run yaml t) t
apply text (Operation.update_run run) t = Queue.update_run text run t
apply text (Operation.set_temp_workload id temp node) t = Queue.set_temp_workload id temp node t
apply text (Operation.set_state id state) t = Queue.set_state id state t
apply text (Operation.set_run_error id message) t = Queue.set_run_error id message t
apply text (Operation.cancel_waiting id at) t = Queue.cancel_waiting id at t
apply text (Operation.ask_to_stop id at) t = Queue.ask_to_stop id at t
apply text (Operation.claim_run nf owner lease now) t = (Queue.claim_run nf owner lease now t).1
apply text (Operation.renew_lease id owner until) t = (Queue.renew_lease id owner until t).1
apply text (Operation.finish_lease id) t = Queue.finish_lease id t

unfoldable pub apply_all : (Error → String) → List Operation → List Row → List Row
unfolding apply
apply_all text [] t = t
apply_all text (op ∷ ops) t = apply_all text ops (apply text op t)
