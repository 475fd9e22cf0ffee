-- ===== src/Recovery/Termination/Steps.antt =====
-- The steps of the workflow but the wait for the guest: none of them loops.
use restorelab.Prelude.{
  ℕ, Bool, String, Option, none, some, List, [], ◌∷◌, ◌⊎◌, inl, inr, arith, if◌then◌else◌,
}
use restorelab.Core.Check.{CheckConfig, CheckResult}
use restorelab.Core.Errors.{Error}
use restorelab.Core.Run.{RunState, StepStatus, StepName, RecoveryRun}
use restorelab.Recovery.Steps.Retry.{retry}
use restorelab.Core.Types.{Backup, NetworkConfig, RestoreOptions, TaskState}
use restorelab.Plan.{Plan, BackupStrategy, unstated, latest, specific, unsupported}
use restorelab.Recovery.Engine.{
  Engine, Session, Reply, Entry, M, RunOptions, Target, ◌>>=◌, call, pure, raise, gets, on_error,
  modify_run, clock, emit_event, begin_step, end_step, or_fail,
}
use restorelab.Recovery.Steps.Discover.{
  discover_backup, resolve_source_name, resolve_backup, check_age, found_or_no_backup, by_strategy,
}
use restorelab.Recovery.Steps.Prepare.{
  Prepared, resolve_node, check_network_isolation, check_capacity, validate_environment,
  validate_isolation, compare_capacity, ValidateIsolation, NodeCapacity, allocate_identity,
  prepare_environment,
}
use restorelab.Recovery.Steps.Restore.{
  the_backup, mark_created, check_task, FinalizeRestore, harden, settle_restore, restore_workload,
  start_workload,
}
use restorelab.Recovery.Steps.Checks.{emit_results, run_all, all_run, judge, run_checks}
use restorelab.Recovery.Termination.Passes.{
  Passes, Forward, Passes-pure, Passes-raise, Passes-gets, Passes-if, Passes-on_error, Passes-call,
  Passes-bind, Passes-modify, Passes-emit, Passes-clock, Passes-begin, Passes-end, Passes-or_fail,
  Passes-retry,
}

-- The action ends, whatever the clock does.
abbrev pub Ends : {e : Engine} {A : Type 0} → M e A → Type 0
Ends m = Passes (λ _. 0) 0 m

still : {e : Engine} → Forward e (λ _. 0)
still = record { now_keeps = λ w. omega arith; sleep_keeps = λ d w. omega arith }

module _ {e : Engine} where
  module _ {A : Type 0} where
    pub Ends-pure : (a : A) → Ends (pure {e = e} a)
    Ends-pure a = Passes-pure _ 0 a

    pub Ends-raise : (x : Error) → Ends (raise {e = e} {A = A} x)
    Ends-raise x = Passes-raise _ 0 x

    pub Ends-gets : (f : Session e → A) → Ends (gets f)
    Ends-gets f = Passes-gets _ 0 f

    pub Ends-if : (b : Bool) (m n : M e A) → Ends m → Ends n → Ends (if b then m else n)
    Ends-if b m n km kn = Passes-if _ 0 b km kn

    pub Ends-on_error :
        (m : M e A) (h : Error → M e A) → Ends m → ((x : Error) → Ends (h x)) → Ends (on_error m h)
    Ends-on_error m h km kh = Passes-on_error _ 0 km kh

    pub Ends-call :
        (log : Reply A → Entry) (f : e.World → Reply A × e.World) → Ends (call {e = e} log f)
    Ends-call log f = Passes-call _ 0 log f (λ w. omega arith)

    pub Ends-or_fail :
        (name : StepName) (state : RunState) (index : ℕ) (m : M e A)
        → Ends m
        → Ends (or_fail name state index m)
    Ends-or_fail name state index m km = Passes-or_fail still 0 name state index km

    pub Ends-retry :
        (attempts backoff : ℕ) (fn : M e A) → Ends fn → Ends (retry attempts backoff fn)
    Ends-retry attempts backoff fn h = Passes-retry still 0 attempts backoff h

  pub Ends-bind :
      {A B : Type 0} (m : M e A) (f : A → M e B) → Ends m → ((a : A) → Ends (f a)) → Ends (m >>= f)
  Ends-bind m f km kf = Passes-bind _ 0 km kf

  pub Ends-modify : (f : RecoveryRun → RecoveryRun) → Ends (modify_run {e = e} f)
  Ends-modify f = Passes-modify _ 0 f

  Ends-emit :
      (state : RunState) (step : StepName) (status : StepStatus) (check : Option CheckResult)
      (x : Option Error)
      → Ends (emit_event {e = e} state step status check x)
  Ends-emit state step status check x = Passes-emit _ 0 state step status check x

  pub Ends-clock : Ends (clock {e = e})
  Ends-clock = Passes-clock still 0

  pub Ends-begin : (name : StepName) (state : RunState) → Ends (begin_step {e = e} name state)
  Ends-begin name state = Passes-begin still 0 name state

  pub Ends-end :
      (name : StepName) (state : RunState) (index : ℕ) (status : StepStatus) (x : Option Error)
      → Ends (end_step {e = e} name state index status x)
  Ends-end name state index status x = Passes-end still 0 name state index status x

ruleset end_rules = (
  Ends-pure, Ends-raise, Ends-gets, Ends-if, Ends-on_error, Ends-call, Ends-or_fail, Ends-retry,
  Ends-bind, Ends-modify, Ends-emit, Ends-clock, Ends-begin, Ends-end,
)

module _ {e : Engine} where
  Ends-resolve_source_name : Ends {e = e} resolve_source_name
  unfolding resolve_source_name
  Ends-resolve_source_name = search end_rules

  Ends-found : (o : Option Backup) → Ends {e = e} (found_or_no_backup o)
  Ends-found none = search end_rules
  Ends-found (some b) = search end_rules

  Ends-by_strategy : (b : BackupStrategy) (p : Plan) → Ends {e = e} (by_strategy b p)
  Ends-by_strategy specific p = Ends-bind _ _ (Ends-call _ _) λ bs. Ends-found _
  Ends-by_strategy unstated p = Ends-call _ _
  Ends-by_strategy latest p = Ends-call _ _
  Ends-by_strategy (unsupported _) p = Ends-call _ _

  Ends-check_age : (p : Plan) (b : Backup) → Ends {e = e} (check_age p b)
  unfolding check_age
  Ends-check_age p b = search end_rules

  pub Ends-discover_backup : (p : Plan) → Ends {e = e} (discover_backup p)
  unfolding discover_backup resolve_backup
  Ends-discover_backup p = Ends-bind _ _ (Ends-begin _ _) λ index.
      Ends-bind _ _ Ends-resolve_source_name λ _.
        Ends-bind _ _ (Ends-or_fail _ _ _ _ (Ends-by_strategy _ p)) λ backup.
          Ends-bind _ _ (Ends-or_fail _ _ _ _ (Ends-check_age p backup))
            λ _. Ends-bind _ _ (Ends-modify _) λ _. Ends-end _ _ _ _ _

  Ends-resolve_node : (p : Plan) (opts : RunOptions) → Ends {e = e} (resolve_node p opts)
  unfolding resolve_node
  Ends-resolve_node p opts = search end_rules

  Ends-validate_isolation :
      (v : ValidateIsolation e) (node : String) (network : NetworkConfig)
      → Ends {e = e} (validate_isolation {e = e} v node network)
  Ends-validate_isolation none node network = search end_rules
  Ends-validate_isolation (some v) node network = search end_rules

  Ends-check_network_isolation :
      (node : String) (network : NetworkConfig)
      → Ends {e = e} (check_network_isolation node network)
  unfolding check_network_isolation
  Ends-check_network_isolation node network =
      Ends-if _ _ _ (Ends-raise _) (Ends-validate_isolation _ node network)

  Ends-compare_capacity :
      (c : NodeCapacity e) (node : String) (limit : ℕ)
      → Ends {e = e} (compare_capacity {e = e} c node limit)
  Ends-compare_capacity none node limit = search end_rules
  Ends-compare_capacity (some c) node limit = search end_rules

  Ends-check_capacity : (node : String) (limit : ℕ) → Ends {e = e} (check_capacity node limit)
  unfolding check_capacity
  Ends-check_capacity node limit = Ends-if _ _ _ (Ends-pure _) (Ends-compare_capacity _ node limit)

  pub Ends-validate_environment :
      (p : Plan) (opts : RunOptions) (index : ℕ) → Ends {e = e} (validate_environment p opts index)
  unfolding validate_environment
  Ends-validate_environment p opts index =
      search (end_rules, Ends-resolve_node, Ends-check_network_isolation, Ends-check_capacity)

  Ends-allocate_identity :
      (p : Plan) (node : String) (index : ℕ) → Ends {e = e} (allocate_identity p node index)
  unfolding allocate_identity
  Ends-allocate_identity p node index =
      Ends-bind _ _ (Ends-or_fail _ _ _ _ (Ends-call _ _)) λ temp_id.
        Ends-bind _ _ (Ends-gets _) λ run. Ends-bind _ _ Ends-clock λ now.
          Ends-bind _ _ Ends-clock λ later.
            Ends-bind _ _ (Ends-modify _) λ _. Ends-bind _ _ (Ends-end _ _ _ _ _) λ _. Ends-pure _

  pub Ends-prepare_environment :
      (p : Plan) (opts : RunOptions) → Ends {e = e} (prepare_environment p opts)
  unfolding prepare_environment
  Ends-prepare_environment p opts =
      search (end_rules, Ends-validate_environment, Ends-allocate_identity)

  Ends-the_backup : (o : Option Backup) → Ends {e = e} (the_backup o)
  Ends-the_backup none = record { halts = record { at = λ s h. tt } }
  Ends-the_backup (some b) = record { halts = record { at = λ s h. h } }

  Ends-mark_created : Ends {e = e} mark_created
  unfolding mark_created
  Ends-mark_created = record { halts = record { at = λ s h. h } }

  Ends-check_task : (o : Option TaskState) → Ends {e = e} (check_task o)
  Ends-check_task none = search end_rules
  Ends-check_task (some t) = search end_rules

  Ends-harden : (f : FinalizeRestore e) (o : RestoreOptions) → Ends {e = e} (harden {e = e} f o)
  Ends-harden none o = search end_rules
  Ends-harden (some f) o = search end_rules

  Ends-settle_restore :
      (job : e.Job) (o : RestoreOptions) (index : ℕ) → Ends {e = e} (settle_restore job o index)
  unfolding settle_restore
  Ends-settle_restore job o index =
      Ends-bind _ _ (Ends-or_fail _ _ _ _ (Ends-retry _ _ _ (Ends-call _ _))) λ task.
        Ends-bind _ _ (Ends-or_fail _ _ _ _ (Ends-check_task task))
          λ _. Ends-bind _ _ (Ends-or_fail _ _ _ _ (Ends-harden _ o)) λ _. Ends-end _ _ _ _ _

  pub Ends-restore_workload :
      (p : Plan) (opts : RunOptions) (prep : Prepared) → Ends {e = e} (restore_workload p opts prep)
  unfolding restore_workload
  Ends-restore_workload p opts prep = Ends-bind _ _ (Ends-begin _ _) λ index.
      Ends-bind _ _ (Ends-gets _) λ run. Ends-bind _ _ (Ends-the_backup _) λ backup.
        Ends-bind _ _ (Ends-or_fail _ _ _ _ (Ends-call _ _))
          λ job. Ends-bind _ _ Ends-mark_created λ _. Ends-settle_restore job _ index

  pub Ends-start_workload : (p : Plan) (temp_id : String) → Ends {e = e} (start_workload p temp_id)
  unfolding start_workload
  Ends-start_workload p temp_id = Ends-bind _ _ (Ends-begin _ _) λ index.
      Ends-if _ _ _ (Ends-end _ _ _ _ _) (
        Ends-bind _ _ (Ends-or_fail _ _ _ _ (Ends-retry _ _ _ (Ends-call _ _)))
          λ _. Ends-end _ _ _ _ _)

  Ends-emit_results : (rs : List CheckResult) → Ends {e = e} (emit_results rs)
  unfolding emit_results
  Ends-emit_results [] = search end_rules
  Ends-emit_results (r ∷ rs) =
      Ends-bind _ _ Ends-clock λ at. Ends-bind _ _ (Ends-emit _ _ _ _ _) λ _. Ends-emit_results rs

  Ends-all_run : (o : String ⊎ List CheckResult) (w : e.World) → Ends {e = e} (all_run o w)
  Ends-all_run (inl x) w = record { halts = record { at = λ s h. tt } }
  Ends-all_run (inr rs) w = record { halts = record { at = λ s h. h } }

  Ends-run_all : (target : Target) (cfgs : List CheckConfig) → Ends {e = e} (run_all target cfgs)
  unfolding run_all
  Ends-run_all target cfgs = record {
    halts = record {
      at = λ s h. let (r, w) = e.run_all target cfgs s.world in (Ends-all_run r w).halts.at s h;
    };
  }

  Ends-judge : (failed unevaluated : List String) → Ends {e = e} (judge failed unevaluated)
  unfolding judge
  Ends-judge (f ∷ fs) names = search end_rules
  Ends-judge [] (u ∷ us) = search end_rules
  Ends-judge [] [] = search end_rules

  pub Ends-run_checks : (p : Plan) (target : Target) → Ends {e = e} (run_checks p target)
  unfolding run_checks
  Ends-run_checks p target = Ends-bind _ _ (Ends-begin _ _) λ index.
      Ends-bind _ _ (Ends-run_all target _) λ results. Ends-bind _ _ (Ends-modify _) λ _.
        Ends-bind _ _ (Ends-emit_results results)
          λ _. Ends-bind _ _ (Ends-or_fail _ _ _ _ (Ends-judge _ _)) λ _. Ends-end _ _ _ _ _
