-- ===== src/Recovery/Drill.antt =====
-- `Run`, `runDryRun` and the grading of internal/recovery/engine.go and steps.go.
use restorelab.Prelude.{
  ℕ, ◌-◌, Bool, true, false, not, ◌&&◌, ◌||◌, String, none, some, List, [], ◌∷◌, ◌++◌, ◌==◌, str_eq,
  if◌then◌else◌,
}
use restorelab.Core.Check.{CheckResult, CheckStatus, check_fail}
use restorelab.Core.Errors.{Error, recovered_panic, cancelled, checks_inconclusive}
use restorelab.Core.Proof.{proof_none}
use restorelab.Core.Run.{RunState, RunResult, StepStatus, StepName, Step, RecoveryRun, rto_exceeded}
use restorelab.Plan.{Plan, CheckSpec}
use restorelab.Recovery.Naming.{first_non_empty}
use restorelab.Recovery.Engine.{
  Engine, Session, RunOptions, Outcome, M, ok, err, panic, out_of_fuel, ◌>>=◌, ◌>>◌, pure, raise,
  on_error, modify_run, begin_step, end_step,
}
use restorelab.Recovery.Steps.Discover.{discover_backup}
use restorelab.Recovery.Steps.Prepare.{Prepared, validate_environment, prepare_environment}
use restorelab.Recovery.Steps.Restore.{restore_workload, start_workload}
use restorelab.Recovery.Steps.Guest.{wait_for_guest}
use restorelab.Recovery.Steps.Checks.{critical_in, run_checks}
use restorelab.Recovery.Cleanup.{cleanup}

abbrev pub is_step : StepName → StepName → Bool
is_step StepName.run_checks StepName.run_checks = true
is_step StepName.wait_for_guest StepName.wait_for_guest = true
is_step _ _ = false

abbrev pub has_ended : StepStatus → Bool
has_ended StepStatus.done = true
has_ended StepStatus.failed = true
has_ended StepStatus.skipped = true
has_ended _ = false

-- `stepEnd`: 0 for the zero time.
unfoldable pub step_end : StepName → List Step → ℕ
step_end name [] = 0
step_end name (st ∷ sts) =
    let later = step_end name sts in
    if is_step st.name name && has_ended st.status then st.completed_at else later

unfoldable pub compute_rto : RecoveryRun → ℕ
compute_rto r =
    if not (step_end StepName.run_checks r.steps == 0)
    then step_end StepName.run_checks r.steps - r.started_at
    else if not (step_end StepName.wait_for_guest r.steps == 0)
    then step_end StepName.wait_for_guest r.steps - r.started_at
    else 0

abbrev pub is_check_fail : CheckStatus → Bool
is_check_fail check_fail = true
is_check_fail _ = false

unfoldable pub some_minor_failure : List CheckSpec → List CheckResult → Bool
some_minor_failure specs [] = false
some_minor_failure specs (c ∷ cs) =
    (is_check_fail c.status && not (critical_in specs c.name)) || some_minor_failure specs cs

unfoldable pub grade_success : Plan → RecoveryRun → RecoveryRun
grade_success p r = record r {
  state = RunState.success;
  result = some (
      if rto_exceeded r || some_minor_failure p.checks r.checks
      then RunResult.degraded
      else RunResult.success);
}

unfoldable pub mark_failed : Error → RecoveryRun → RecoveryRun
mark_failed x r = record r { result = some RunResult.failed; state = RunState.failed; err = some x }

unfoldable pub mark_inconclusive : Error → RecoveryRun → RecoveryRun
mark_inconclusive x r = record r { state = RunState.inconclusive; result = none; err = some x }

unfoldable pub mark_cancelled : Error → RecoveryRun → RecoveryRun
mark_cancelled x r = record r {
  state = RunState.cancelled;
  result = none;
  err = some (cancelled x);
}

abbrev pub measure_rto : RecoveryRun → RecoveryRun
measure_rto r = record r { rto = compute_rto r }

abbrev pub finish_dry_run : String → RecoveryRun → RecoveryRun
finish_dry_run node r = record r {
  node = node;
  state = RunState.success;
  result = some RunResult.success;
  cleanup_done = true;
}

-- `runDryRun`; its `markFailed` calls are those of `settle` below.
unfoldable pub run_dry_run : {e : Engine} → Plan → RunOptions → M e (Unit {0})
run_dry_run p opts = do
  discover_backup p
  index ← begin_step StepName.prepare_environment RunState.preparing
  node ← validate_environment p opts index
  end_step StepName.prepare_environment RunState.preparing index StepStatus.done none
  modify_run (finish_dry_run node)

-- `tempID, node = tid, nd`
unfoldable pub remember : {e : Engine} → Prepared → M e (Unit {0})
remember prep s = (ok tt, record s { temp_id = prep.temp_id; node = prep.node })

abbrev pub is_empty {ℓ} : {A : Type ℓ} → List A → Bool
is_empty [] = true
is_empty (_ ∷ _) = false

-- The steps behind the reservation of the temporary workload.
unfoldable pub drill_steps : {e : Engine} → ℕ → Plan → RunOptions → Prepared → M e (Unit {0})
drill_steps fuel p opts prep = do
  restore_workload p opts prep
  start_workload p prep.temp_id
  target ← wait_for_guest fuel p prep.temp_id
  if is_empty p.checks
      then pure tt
      else on_error (run_checks p target) (λ x. do modify_run measure_rto; raise x)
  modify_run (λ r. grade_success p (measure_rto r))

-- The body of `Run` up to the deferred block.
unfoldable pub workflow : {e : Engine} → ℕ → Plan → RunOptions → M e (Unit {0})
workflow fuel p opts = if opts.dry_run then run_dry_run p opts else do
  discover_backup p
  prep ← prepare_environment p opts
  remember prep
  drill_steps fuel p opts prep

unfoldable pub new_run : (e : Engine) → Plan → RunOptions → ℕ → String → RecoveryRun
new_run e p opts started id = record {
  id = id;
  plan_name = p.name;
  plan_id = "";
  plan_version = 0;
  provider_id = e.provider_id;
  backup_provider_id = e.backup_provider_id;
  source_workload_id = p.workload.id;
  source_name = first_non_empty p.workload.name p.workload.id;
  temp_workload_id = "";
  temp_name = "";
  node = first_non_empty opts.node p.restore.node;
  backup = none;
  state = RunState.queued;
  result = none;
  proof_level = proof_none;
  started_at = started;
  completed_at = 0;
  steps = [];
  checks = [];
  rto = 0;
  rto_target = p.rto_target;
  cleanup_done = false;
  err = none;
}

-- The caller's id, or a new one.
abbrev pub run_id : (e : Engine) → String → e.World → String × e.World
run_id e given w = if str_eq given "" then e.new_id w else (given, w)

unfoldable pub begin_run : (e : Engine) → Plan → RunOptions → e.World → Session e
begin_run e p opts w =
    let (id, w') = run_id e opts.run_id w in
    let (started, w'') = e.now w' in
    record {
      world = w'';
      trace = [];
      run = new_run e p opts started id;
      temp_id = "";
      node = "";
      needs_cleanup = false;
    }

-- `markFailed` or `markInconclusive`, and then `markCancelled` if the context was cancelled.
abbrev pub mark_error : Bool → Error → RecoveryRun → RecoveryRun
mark_error true x r = mark_cancelled x r
mark_error false (checks_inconclusive names) r = mark_inconclusive (checks_inconclusive names) r
mark_error false x r = mark_failed x r

-- How the deferred block reads the end of the workflow.
unfoldable pub settle : Outcome (Unit {0}) → Bool → RecoveryRun → RecoveryRun
settle (ok _) is_cancelled r = r
settle (err x) is_cancelled r = mark_error is_cancelled x r
settle (panic x) is_cancelled r = mark_failed (recovered_panic x) r
settle out_of_fuel is_cancelled r = r

abbrev pub workflow_errors : Outcome (Unit {0}) → List Error
workflow_errors (err x) = x ∷ []
workflow_errors (panic x) = recovered_panic x ∷ []
workflow_errors _ = []

abbrev pub is_unset : RunState → Bool
is_unset RunState.unset = true
is_unset _ = false

abbrev pub stamp_end : ℕ → RecoveryRun → RecoveryRun
stamp_end now r = record r {
  completed_at = if r.completed_at == 0 then now else r.completed_at;
  state = if is_unset r.state then RunState.failed else r.state;
}

-- `finalize`
unfoldable pub finalize : {e : Engine} → Session e → Session e
finalize {e} s = let (now, w) = e.now s.world in record s { world = w; run = stamp_end now s.run }

-- How a call of `Run` ends: with the errors that it joins, none for a nil error; with a panic of the
-- deferred cleanup, which nothing recovers; or not yet, in the wait for the guest.
pub data Ending (e : Engine) : Type 0 where
  returned : List Error → Session e → Ending e
  crashed : Session e → Ending e
  waiting : Session e → Ending e

-- `combineErrors`
abbrev pub conclude : {e : Engine} → List Error → Outcome (Unit {0}) → Session e → Ending e
conclude errs (ok _) s = returned errs (finalize s)
conclude errs (err x) s = returned (errs ++ x ∷ []) (finalize s)
conclude errs (panic x) s = crashed s
conclude errs out_of_fuel s = waiting s

-- The deferred block.
unfoldable pub deferred :
    {e : Engine} → Plan → RunOptions → Outcome (Unit {0}) → Session e → Ending e
deferred p opts out_of_fuel s = waiting s
deferred {e} p opts r s =
    let (r', s') = cleanup p opts (record s { run = settle r (e.is_cancelled s.world) s.run }) in
    conclude (workflow_errors r) r' s'

unfoldable pub run : (e : Engine) → ℕ → Plan → RunOptions → e.World → Ending e
run e fuel p opts w =
    let (r, s) = workflow fuel p opts (begin_run e p opts w) in deferred p opts r s
