-- ===== src/Recovery/Steps/Checks.antt =====
-- `runChecks` of internal/recovery/steps.go, and `criticalMap` and `stepStatusForCheck` of naming.go.
use restorelab.Prelude.{
  Bool, true, false, not, ◌||◌, ◌&&◌, String, none, some, List, [], ◌∷◌, ◌⊎◌, inl, inr, map, str_eq,
  if◌then◌else◌,
}
use restorelab.Core.Check.{
  CheckConfig, CheckResult, CheckStatus, check_pass, check_error, check_skipped, is_ok,
}
use restorelab.Core.Errors.{critical_checks_failed, checks_inconclusive}
use restorelab.Core.Proof as Proof
use restorelab.Core.Proof.ProvenBy.{ProofCheck, proven_by}
use restorelab.Core.Run.{RunState, StepStatus, StepName, RecoveryRun}
use restorelab.Plan.{Plan, CheckSpec, display_name, is_critical}
use restorelab.Plan.Proof.{to_core}
use restorelab.Recovery.Engine.{
  Engine, Target, Query, M, ok, panic, query, ◌>>=◌, ◌>>◌, pure, raise, modify_run, emit_event,
  clock, begin_step, end_step, or_fail,
}

abbrev pub step_status_for_check : CheckStatus → StepStatus
step_status_for_check check_pass = StepStatus.done
step_status_for_check check_skipped = StepStatus.skipped
step_status_for_check _ = StepStatus.failed

-- The map's value at a name: that of the last check which carries it, and `false` without one.
unfoldable pub critical_in : List CheckSpec → String → Bool
critical_in [] name = false
critical_in (c ∷ cs) name =
    critical_in cs name || (str_eq (display_name c) name && is_critical c && not (named cs name))
  where
    named : List CheckSpec → String → Bool
    named [] n = false
    named (d ∷ ds) n = str_eq (display_name d) n || named ds n

-- Each configuration with its result, as far as both lists go.
unfoldable pub pair_up : List CheckConfig → List CheckResult → List ProofCheck
pair_up [] results = []
pair_up (c ∷ cs) [] = []
pair_up (c ∷ cs) (r ∷ rs) = record { config = c; result = r } ∷ pair_up cs rs

abbrev pub is_check_error : CheckStatus → Bool
is_check_error check_error = true
is_check_error _ = false

-- The names of the critical checks that answered badly, and of those that could not be evaluated.
unfoldable pub failed_critical : List CheckSpec → List CheckResult → List String
failed_critical specs [] = []
failed_critical specs (r ∷ rs) =
    let rest = failed_critical specs rs in
    if is_ok r || not (critical_in specs r.name)
    then rest
    else if is_check_error r.status
    then rest
    else r.name ∷ rest

unfoldable pub unevaluated : List CheckSpec → List CheckResult → List String
unevaluated specs [] = []
unevaluated specs (r ∷ rs) =
    let rest = unevaluated specs rs in
    if is_ok r || not (critical_in specs r.name)
    then rest
    else if is_check_error r.status
    then r.name ∷ rest
    else rest

abbrev pub all_run : {e : Engine} → String ⊎ List CheckResult → e.World → M e (List CheckResult)
all_run (inl x) w s = (panic x, record s { world = w; trace = query Query.run_all ∷ s.trace })
all_run (inr results) w s =
    (ok results, record s { world = w; trace = query Query.run_all ∷ s.trace })

unfoldable pub run_all : {e : Engine} → Target → List CheckConfig → M e (List CheckResult)
run_all {e} target cfgs s = let (r, w) = e.run_all target cfgs s.world in all_run r w s

unfoldable pub emit_results : {e : Engine} → List CheckResult → M e (Unit {0})
emit_results [] = pure tt
emit_results (r ∷ rs) = do
  at ← clock
  emit_event RunState.running_checks StepName.run_checks (step_status_for_check r.status) (some r)
      none
  emit_results rs

abbrev pub record_results : List CheckConfig → List CheckResult → RecoveryRun → RecoveryRun
record_results cfgs results r = record r {
  checks = results;
  proof_level = Proof.raise r.proof_level (proven_by (pair_up cfgs results));
}

-- A critical check that failed outranks one that could not be evaluated.
unfoldable pub judge : {e : Engine} → List String → List String → M e (Unit {0})
judge (f ∷ fs) names = raise (critical_checks_failed (f ∷ fs))
judge [] (u ∷ us) = raise (checks_inconclusive (u ∷ us))
judge [] [] = pure tt

unfoldable pub run_checks : {e : Engine} → Plan → Target → M e (Unit {0})
run_checks p target = do
  index ← begin_step StepName.run_checks RunState.running_checks
  results ← run_all target (map to_core p.checks)
  modify_run (record_results (map to_core p.checks) results)
  emit_results results
  or_fail StepName.run_checks RunState.running_checks index
      (judge (failed_critical p.checks results) (unevaluated p.checks results))
  end_step StepName.run_checks RunState.running_checks index StepStatus.done none
