-- ===== src/Recovery/Engine.antt =====
-- The engine of internal/recovery/engine.go as a state monad over what surrounds it: the providers,
-- the check runner, the clock and the context of the run are fields of `Engine`, which act on a world
-- of their own. Every call that a drill makes and every event that it emits goes on the trace.
use restorelab.Prelude.{
  ℕ, zero, suc, ◌-◌, Bool, true, false, String, Option, none, some, List, [], ◌∷◌, ◌++◌, ◌⊎◌,
  length,
}
use restorelab.Core.Check.{CheckConfig, CheckResult}
use restorelab.Core.Errors.{Error, ProviderError, provider}
use restorelab.Core.Run.{RunState, StepStatus, StepName, Step, RecoveryRun}
use restorelab.Core.Types.{
  Node, Workload, Backup, NetworkConfig, RestoreOptions, TaskState, WorkloadStatus,
}

-- What a call of a provider ends in; `crashed` is a panic.
pub data Reply (A : Type 0) : Type 0 where
  answered : A → Reply A
  refused : ProviderError → Reply A
  crashed : String → Reply A

-- recovery.RunOptions, the choices of the caller.
pub record RunOptions : Type 0 where
  pub run_id : String
  pub network : NetworkConfig
  pub node : String
  pub storage : String
  pub pool : String
  pub dry_run : Bool
  pub keep_workload : Bool

-- `core.Target`; the executor and the baselines that it also carries belong to the check runner.
pub record Target : Type 0 where
  pub ip : String
  pub ips : List String
  pub workload_id : String
  pub node : String
  pub name : String

-- A capability that a provider may not implement is an `Option`.
pub record Engine : Type 1 where
  pub World : Type 0
  pub Job : Type 0
  pub provider_id : String
  pub backup_provider_id : String
  pub now : World → ℕ × World
  pub sleep : ℕ → World → Option ProviderError × World
  pub is_cancelled : World → Bool
  pub new_id : World → String × World
  pub stamp : ℕ → String
  pub get_workload : String → World → Reply Workload × World
  pub list_backups : String → World → Reply (List Backup) × World
  pub get_latest_backup : String → World → Reply Backup × World
  pub validate_isolation : Option (String → NetworkConfig → World → Reply (Unit {0}) × World)
  pub node_capacity : Option (String → World → Reply Node × World)
  pub allocate_workload_id : World → Reply String × World
  pub restore : Backup → RestoreOptions → World → Reply Job × World
  pub wait_for_job : Job → World → Reply (Option TaskState) × World
  pub finalize_restore : Option (RestoreOptions → World → Reply (Unit {0}) × World)
  pub start : String → World → Reply (Unit {0}) × World
  pub stop : String → World → Reply (Unit {0}) × World
  pub delete : String → World → Reply (Unit {0}) × World
  pub get_status : String → World → Reply WorkloadStatus × World
  pub run_all : Target → List CheckConfig → World → (String ⊎ List CheckResult) × World

-- recovery/events.go; the instant and the message are left out.
pub record Event : Type 0 where
  pub state : RunState
  pub step : StepName
  pub status : StepStatus
  pub check : Option CheckResult
  pub err : Option Error
  pub temp_workload_id : String
  pub node : String

pub data Query : Type 0 where
  get_workload list_backups get_latest_backup validate_isolation node_capacity : Query
  wait_for_job get_status run_all : Query

-- The last argument of a call that may change the cluster says whether it was answered.
pub data Entry : Type 0 where
  query : Query → Entry
  emit : Event → Entry
  allocate : Option String → Entry
  restore : RestoreOptions → Bool → Entry
  finalize : RestoreOptions → Bool → Entry
  start : String → Bool → Entry
  stop : String → Bool → Entry
  delete : String → Bool → Entry

-- The run record and the three variables that the deferred cleanup reads, with the world and the
-- trace, newest entry first.
pub record Session (e : Engine) : Type 0 where
  pub world : e.World
  pub trace : List Entry
  pub run : RecoveryRun
  pub temp_id : String
  pub node : String
  pub needs_cleanup : Bool

-- What a step of the workflow ends in. `out_of_fuel` is a wait that has not ended yet.
pub data Outcome (A : Type 0) : Type 0 where
  ok : A → Outcome A
  err : Error → Outcome A
  panic : String → Outcome A
  out_of_fuel : Outcome A

abbrev pub M : Engine → Type 0 → Type 0
M e A = Session e → Outcome A × Session e

module _ {e : Engine} {A B : Type 0} where
  abbrev pub continue : Outcome A → (A → M e B) → M e B
  continue (ok a) f s = f a s
  continue (err x) f s = (err x, s)
  continue (panic x) f s = (panic x, s)
  continue out_of_fuel f s = (out_of_fuel, s)

  infixl 10 ◌>>=◌ ◌>>◌
  unfoldable pub ◌>>=◌ : M e A → (A → M e B) → M e B
  ◌>>=◌ m f s = let (r, s') = m s in continue r f s'

  abbrev pub ◌>>◌ : M e A → M e B → M e B
  m >> n = m >>= λ _. n

abbrev pub outcome : {A : Type 0} → Reply A → Outcome A
outcome (answered a) = ok a
outcome (refused x) = err (provider x)
outcome (crashed x) = panic x

module _ {e : Engine} {A : Type 0} where
  unfoldable pub pure : A → M e A
  pure a s = (ok a, s)

  unfoldable pub raise : Error → M e A
  raise x s = (err x, s)

  abbrev pub recover : Outcome A → (Error → M e A) → M e A
  recover (ok a) h s = (ok a, s)
  recover (err x) h s = h x s
  recover (panic x) h s = (panic x, s)
  recover out_of_fuel h s = (out_of_fuel, s)

  -- `if err != nil { … }` behind a call.
  unfoldable pub on_error : M e A → (Error → M e A) → M e A
  on_error m h s = let (r, s') = m s in recover r h s'

  -- A call of a provider, with the entry that its reply puts on the trace.
  unfoldable pub call : (Reply A → Entry) → (e.World → Reply A × e.World) → M e A
  call log f s =
      let (r, w) = f s.world in (outcome r, record s { world = w; trace = log r ∷ s.trace })

  unfoldable pub gets : (Session e → A) → M e A
  gets f s = (ok (f s), s)

abbrev pub is_answered : {A : Type 0} → Reply A → Bool
is_answered (answered a) = true
is_answered _ = false

abbrev pub answer : {A : Type 0} → Reply A → Option A
answer (answered a) = some a
answer _ = none

module _ {e : Engine} where
  unfoldable pub modify_run : (RecoveryRun → RecoveryRun) → M e (Unit {0})
  modify_run f s = (ok tt, record s { run = f s.run })

  abbrev pub current_run : M e RecoveryRun
  current_run = gets (λ s. s.run)

  unfoldable pub clock : M e ℕ
  clock s = let (t, w) = e.now s.world in (ok t, record s { world = w })

  -- `eventFor` and the call of `Emit`.
  unfoldable pub emit_event :
      RunState → StepName → StepStatus → Option CheckResult → Option Error → M e (Unit {0})
  emit_event state step status check x s =
      let ev : Event = record {
        state = state;
        step = step;
        status = status;
        check = check;
        err = x;
        temp_workload_id = s.run.temp_workload_id;
        node = s.run.node;
      } in
      (ok tt, record s { trace = emit ev ∷ s.trace })

-- The steps are kept in order, and a step is opened at the end of the list.
abbrev pub open_step : StepName → RunState → ℕ → Step
open_step name state started = record {
  name = name;
  state = state;
  status = StepStatus.running;
  started_at = started;
  completed_at = 0;
  duration = 0;
  err = none;
}

unfoldable pub close_step : StepStatus → ℕ → Option Error → Step → Step
close_step status at x st = record st {
  status = status;
  completed_at = at;
  duration = at - st.started_at;
  err = x;
}

unfoldable pub close_at : ℕ → StepStatus → ℕ → Option Error → List Step → List Step
unfolding close_step
close_at i status at x [] = []
close_at zero status at x (st ∷ sts) = close_step status at x st ∷ sts
close_at (suc i) status at x (st ∷ sts) = st ∷ close_at i status at x sts

unfoldable pub begin_step : {e : Engine} → StepName → RunState → M e ℕ
begin_step name state = do
  modify_run (λ r. record r { state = state })
  started ← clock
  index ← gets (λ s. length s.run.steps)
  modify_run (λ r. record r { steps = r.steps ++ open_step name state started ∷ [] })
  emit_event state name StepStatus.running none none
  pure index

-- The name and the state are those of the step that `index` names.
unfoldable pub end_step :
    {e : Engine} → StepName → RunState → ℕ → StepStatus → Option Error → M e (Unit {0})
end_step name state index status x = do
  at ← clock
  modify_run (λ r. record r { steps = close_at index status at x r.steps })
  emit_event state name status none x

-- `if err != nil { e.endStep(run, idx, core.StepFailed, …, err); return err }`
unfoldable pub or_fail : {e : Engine} {A : Type 0} → StepName → RunState → ℕ → M e A → M e A
or_fail name state index m =
    on_error m (λ x. do end_step name state index StepStatus.failed (some x); raise x)
