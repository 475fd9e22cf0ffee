-- ===== src/Recovery/Verdict/Graded.antt =====
-- The grade of a run, which the cleanup keeps unless it leaves an orphan.
use restorelab.Prelude.{ℕ, inl, inr, ◌||◌, Option, none, some, Bool-cases}
use restorelab.Core.Run.{RunState, RunResult, RecoveryRun, rto_exceeded}
use restorelab.Plan.{Plan}
use restorelab.Recovery.Engine.{
  Engine, Session, RunOptions, Outcome, M, ok, err, panic, out_of_fuel, modify_run,
}
use restorelab.Recovery.Drill.{
  workflow, run_dry_run, drill_steps, grade_success, some_minor_failure,
}
use restorelab.Recovery.Protocol.Triple.{Triple, Triple-bind, Triple-if, Ends}

-- The grades of a drill that recovered, and of one that did not.
pub data Recovered : RunState → Option RunResult → Type 0 where
  recovered : Recovered RunState.success (some RunResult.success)
  degraded : Recovered RunState.success (some RunResult.degraded)

pub data Unproven : RunState → Option RunResult → Type 0 where
  failed : Unproven RunState.failed (some RunResult.failed)
  cancelled : Unproven RunState.cancelled none
  inconclusive : Unproven RunState.inconclusive none
  orphan : (r : Option RunResult) → Unproven RunState.cleanup_failed r

abbrev pub IsRecovered : RecoveryRun → Type 0
IsRecovered r = Recovered r.state r.result

abbrev pub IsUnproven : RecoveryRun → Type 0
IsUnproven r = Unproven r.state r.result

grade-Recovered : (p : Plan) (r : RecoveryRun) → IsRecovered (grade_success p r)
unfolding grade_success
grade-Recovered p r = elim (Bool-cases (rto_exceeded r || some_minor_failure p.checks r.checks)) [
  | inl b ↦ rw b degraded
  | inr b ↦ rw b recovered
]

module _ {e : Engine} where
  abbrev pub Any : Session e → Type 0
  Any s = Unit {0}

  Any-Triple : {A : Type 0} (m : M e A) → Triple Any m (λ _. Any) Any
  Any-Triple m = record { at = λ s h. let (r, s') = m s in go r s' }
    where
      go : {A : Type 0} (r : Outcome A) (s : Session e) → Ends (λ _. Any) Any r s
      go (ok a) s = tt
      go (err x) s = tt
      go (panic x) s = tt
      go out_of_fuel s = tt

  -- A workflow that ends well is graded SUCCESS or DEGRADED.
  pub workflow-Recovered :
      (fuel : ℕ) (p : Plan) (opts : RunOptions)
      → Triple Any (workflow fuel p opts) (λ _ s. IsRecovered s.run) Any
  unfolding workflow drill_steps run_dry_run modify_run
  workflow-Recovered fuel p opts =
      Triple-if opts.dry_run
        (λ _. Triple-bind (Any-Triple _) λ _. Triple-bind (Any-Triple _) λ index.
          Triple-bind (Any-Triple _)
            λ node. Triple-bind (Any-Triple _) λ _. record { at = λ s h. recovered })
        (λ _. Triple-bind (Any-Triple _) λ _. Triple-bind (Any-Triple _) λ prep.
          Triple-bind (Any-Triple _) λ _. Triple-bind (Any-Triple _) λ _.
            Triple-bind (Any-Triple _) λ _.
              Triple-bind (Any-Triple _) λ target.
                Triple-bind (Any-Triple _) λ _. record { at = λ s h. grade-Recovered p _ })
