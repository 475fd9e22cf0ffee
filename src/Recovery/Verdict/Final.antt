-- ===== src/Recovery/Verdict/Final.antt =====
-- The cleanup keeps the grade of a run, unless it leaves an orphan; the state that a drill returns with.
use restorelab.Prelude.{
  ℕ, ◌≡◌, ◌≢◌, refl, ap, ◌∙◌, Bool, true, false, Option, none, some, String, List, [], ◌∷◌, ◌++◌,
}
use restorelab.Core.Errors.{Error, checks_inconclusive}
use restorelab.Core.Run.{RunState, RunResult, StepName, RecoveryRun}
use restorelab.Plan.{Plan}
use restorelab.Recovery.Engine.{
  Engine, Session, RunOptions, Outcome, M, ok, err, panic, out_of_fuel, ◌>>=◌, gets, modify_run,
  clock, emit_event, begin_step, end_step, pure, raise,
}
use restorelab.Recovery.Cleanup.{
  cleanup, skip_cleanup, destroy, stop_quietly, delete_once, after_delete, confirm_removal,
  report_orphan,
}
use restorelab.Recovery.Drill.{
  conclude, deferred, run, settle, mark_error, mark_failed, mark_inconclusive, mark_cancelled,
  workflow, begin_run, finalize,
}
use restorelab.Recovery.Protocol.Contract.{Contract, Contract-bind, Contract-on_error, Meets}
use restorelab.Recovery.Protocol.Triple.{Ends}
use restorelab.Recovery.Protocol.Safety.{EndsAs, branch, cleanup_lem}
use restorelab.Recovery.Verdict.Quiet.{Quiet, Quiet-retry, Quiet-call, Quiet-bind, Quiet-pure}
use restorelab.Recovery.Verdict.Graded.{
  Recovered, Unproven, recovered, degraded, failed, cancelled, inconclusive, orphan, IsRecovered,
  IsUnproven, Any, workflow-Recovered,
}

-- The run was graded, and its grade stands; or an orphan replaced it.
pub record Keeps {e : Engine} (state : RunState) (result : Option RunResult) (s : Session e)
    : Type 0 where
  pub state_is : s.run.state ≡ state
  pub result_is : s.run.result ≡ result

abbrev pub Alarmed : {e : Engine} → Session e → Type 0
Alarmed s = s.run.state ≡ RunState.cleanup_failed

abbrev pub Nothing : {e : Engine} → Session e → Type 0
Nothing s = Unit {0}

module _ {e : Engine} (graded : RunState) (result : Option RunResult) where
  abbrev Result : Session e → Type 0
  Result s = s.run.result ≡ result

  Quiet-Contract :
      {A : Type 0} (m : M e A) → Quiet m → Contract Result m (λ _. Result) (λ _. Result) Nothing
  Quiet-Contract m q = record {
    at = λ s h. let (r, s') = m s in go r s' (ap (λ r. r.result) (q.at s) ∙ h);
  }
    where
      go :
          {A : Type 0} (r : Outcome A) (s : Session e)
          → Result s
          → Meets (λ _. Result) (λ _. Result) Nothing r s
      go (ok a) s h = h
      go (err x) s h = h
      go (panic x) s h = tt
      go out_of_fuel s h = tt

  begin-Contract :
      (name : StepName) (state : RunState)
      → Contract Result (begin_step name state) (λ _. Result) (λ _. Alarmed) Nothing
  unfolding begin_step ◌>>=◌ modify_run clock emit_event gets pure
  begin-Contract name state = record { at = λ s h. h }

  stop_quietly-Contract :
      (id : String) → Contract Result (stop_quietly id) (λ _. Result) (λ _. Alarmed) Nothing
  unfolding stop_quietly pure
  stop_quietly-Contract id =
      Contract-on_error (Quiet-Contract _ (Quiet-retry _ _ _ (Quiet-call _ _)))
        (λ x. record { at = λ s h. h })

  delete_once-Contract :
      (id : String) → Contract Result (delete_once id) (λ _. Result) (λ _. Alarmed) Nothing
  unfolding delete_once pure
  delete_once-Contract id =
      Contract-on_error (Quiet-Contract _ (Quiet-bind _ _ (Quiet-call _ _) (λ _. Quiet-pure none)))
        (λ x. record { at = λ s h. h })

  after_delete-Contract :
      (id node : String) (index : ℕ) (o : Option Error)
      → Contract Result
          (after_delete id node graded index o)
          (λ _. Keeps graded result)
          (λ _. Alarmed)
          Nothing
  unfolding confirm_removal report_orphan ◌>>=◌ modify_run end_step clock emit_event raise
  after_delete-Contract id node index none = record {
    at = λ s h. record { state_is = refl; result_is = h };
  }
  after_delete-Contract id node index (some x) = record { at = λ s h. refl }

  destroy-Contract :
      (id node : String)
      → Contract Result (destroy id node graded) (λ _. Keeps graded result) (λ _. Alarmed) Nothing
  unfolding destroy
  destroy-Contract id node = Contract-bind (begin-Contract _ _) λ index.
      Contract-bind (stop_quietly-Contract id) λ _.
        Contract-bind (delete_once-Contract id)
          λ failure. after_delete-Contract id node index failure

  skip-Contract :
      Contract Result (skip_cleanup graded) (λ _. Keeps graded result) (λ _. Alarmed) Nothing
  unfolding skip_cleanup begin_step end_step ◌>>=◌ modify_run clock emit_event gets pure
  skip-Contract = record { at = λ s h. record { state_is = refl; result_is = h } }

module _ {e : Engine} (p : Plan) (opts : RunOptions) where
  branch-Keeps :
      (s : Session e) (need keep : Bool)
      → let (r, t) = branch s need keep s in
        Meets (λ _. Keeps s.run.state s.run.result) (λ _. Alarmed) Nothing r t
  unfolding modify_run
  branch-Keeps s false keep = record { state_is = refl; result_is = refl }
  branch-Keeps s true true = (skip-Contract _ _).at s refl
  branch-Keeps s true false = (destroy-Contract _ _ s.temp_id s.node).at s refl

  cleanup-Keeps :
      (s : Session e)
      → let (r, t) = cleanup p opts s in
        Meets (λ _. Keeps s.run.state s.run.result) (λ _. Alarmed) Nothing r t
  cleanup-Keeps s = rw (cleanup_lem s p opts) (branch-Keeps s _ _)

-- What `Run` returns, read with the run record: no error with a success or a degraded success, and
-- an error with every other grade.
pub data Reported {e : Engine} (errs : List Error) (s : Session e) : Type 0 where
  good : errs ≡ [] → IsRecovered s.run → Reported errs s
  bad : errs ≢ [] → IsUnproven s.run → Reported errs s

append-ne : (before : List Error) (x : Error) → before ++ x ∷ [] ≢ []
append-ne [] x = λ e. cc
append-ne (y ∷ ys) x = λ e. cc

module _ {e : Engine} where
  Recovered-finalize :
      (s : Session e) (state : RunState) (result : Option RunResult)
      → Recovered state result
      → Keeps state result s
      → IsRecovered (finalize s).run
  unfolding finalize
  Recovered-finalize s _ _ recovered k = rw (k.state_is, k.result_is) recovered
  Recovered-finalize s _ _ degraded k = rw (k.state_is, k.result_is) degraded

  Unproven-finalize :
      (s : Session e) (state : RunState) (result : Option RunResult)
      → Unproven state result
      → Keeps state result s
      → IsUnproven (finalize s).run
  unfolding finalize
  Unproven-finalize s _ _ failed k = rw (k.state_is, k.result_is) failed
  Unproven-finalize s _ _ cancelled k = rw (k.state_is, k.result_is) cancelled
  Unproven-finalize s _ _ inconclusive k = rw (k.state_is, k.result_is) inconclusive
  Unproven-finalize s _ _ (orphan r) k = rw (k.state_is, k.result_is) (orphan r)

  orphan-finalize : (s : Session e) → Alarmed s → IsUnproven (finalize s).run
  unfolding finalize
  orphan-finalize s a = rw a (orphan s.run.result)

  Recovered-ends :
      (state : RunState) (result : Option RunResult) (r : Outcome (Unit {0})) (t : Session e)
      → Recovered state result
      → Meets (λ _. Keeps state result) (λ _. Alarmed) Nothing r t
      → EndsAs Reported Nothing Nothing (conclude [] r t)
  Recovered-ends state result (ok u) t g m = good refl (Recovered-finalize t state result g m)
  Recovered-ends state result (err x) t g m = bad (append-ne [] x) (orphan-finalize t m)
  Recovered-ends state result (panic x) t g m = tt
  Recovered-ends state result out_of_fuel t g m = tt

  Unproven-ends :
      (x : Error) (state : RunState) (result : Option RunResult) (r : Outcome (Unit {0}))
      (t : Session e)
      → Unproven state result
      → Meets (λ _. Keeps state result) (λ _. Alarmed) Nothing r t
      → EndsAs Reported Nothing Nothing (conclude (x ∷ []) r t)
  Unproven-ends x state result (ok u) t g m = bad (λ q. cc) (Unproven-finalize t state result g m)
  Unproven-ends x state result (err y) t g m = bad (append-ne (x ∷ []) y) (orphan-finalize t m)
  Unproven-ends x state result (panic y) t g m = tt
  Unproven-ends x state result out_of_fuel t g m = tt

mark_error-Unproven : (c : Bool) (x : Error) (r : RecoveryRun) → IsUnproven (mark_error c x r)
unfolding mark_failed mark_inconclusive mark_cancelled
mark_error-Unproven true x r = cancelled
mark_error-Unproven false (checks_inconclusive names) r = inconclusive
mark_error-Unproven false _ r = failed

module _ {e : Engine} (p : Plan) (opts : RunOptions) where
  deferred-Reported :
      (r : Outcome (Unit {0})) (s : Session e)
      → Ends (λ _ t. IsRecovered t.run) Any r s
      → EndsAs Reported Nothing Nothing (deferred p opts r s)
  unfolding deferred settle mark_failed
  deferred-Reported (ok a) s h = Recovered-ends _ _ _ _ h (cleanup-Keeps p opts _)
  deferred-Reported (err x) s h =
      Unproven-ends x _ _ _ _ (mark_error-Unproven (e.is_cancelled s.world) x s.run)
        (cleanup-Keeps p opts _)
  deferred-Reported (panic x) s h = Unproven-ends _ _ _ _ _ failed (cleanup-Keeps p opts _)
  deferred-Reported out_of_fuel s h = tt

-- A drill that returns leaves its run in a terminal state, and the error agrees with the grade: no
-- error if and only if the state is SUCCESS, with the result SUCCESS or DEGRADED; else FAILED with
-- the result FAILED, CANCELLED or INCONCLUSIVE with no result, or CLEANUP_FAILED, an orphan.
pub run-Reported :
    (e : Engine) (fuel : ℕ) (p : Plan) (opts : RunOptions) (w : e.World)
    → EndsAs Reported Nothing Nothing (run e fuel p opts w)
unfolding run
run-Reported e fuel p opts w =
    let (r, s) = workflow fuel p opts (begin_run e p opts w) in
    deferred-Reported p opts r s ((workflow-Recovered fuel p opts).at (begin_run e p opts w) tt)
