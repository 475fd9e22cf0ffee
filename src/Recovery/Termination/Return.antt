-- ===== src/Recovery/Termination/Return.antt =====
-- `Run` returns: no step of the drill waits without end.
use restorelab.Prelude.{ℕ, ◌<◌, Option, none, some, List, arith}
use restorelab.Core.Errors.{Error}
use restorelab.Core.Run.{RunState}
use restorelab.Plan.{Plan}
use restorelab.Recovery.Engine.{Engine, Session, RunOptions, Outcome, ok, err, panic, out_of_fuel}
use restorelab.Recovery.Steps.Prepare.{Prepared}
use restorelab.Recovery.Cleanup.{
  cleanup, destroy, skip_cleanup, stop_quietly, delete_once, after_delete, confirm_removal,
  report_orphan,
}
use restorelab.Recovery.Drill.{
  run, run_dry_run, remember, drill_steps, workflow, begin_run, deferred, conclude, is_empty,
}
use restorelab.Recovery.Protocol.Safety.{EndsAs}
use restorelab.Recovery.Termination.Passes.{Done, Late}
use restorelab.Recovery.Termination.Steps.{
  Ends, Ends-pure, Ends-raise, Ends-gets, Ends-if, Ends-on_error, Ends-call, Ends-retry, Ends-bind,
  Ends-modify, Ends-begin, Ends-end, Ends-discover_backup, Ends-validate_environment,
  Ends-prepare_environment, Ends-restore_workload, Ends-start_workload, Ends-run_checks,
}
use restorelab.Recovery.Termination.Wait.{Ticking, Ends-wait_for_guest}

module _ {e : Engine} where
  Ends-skip_cleanup : (graded : RunState) → Ends {e = e} (skip_cleanup graded)
  unfolding skip_cleanup
  Ends-skip_cleanup graded = Ends-bind _ _ (Ends-begin _ _) λ index.
      Ends-bind _ _ (Ends-end _ _ _ _ _) λ _. Ends-bind _ _ (Ends-modify _) λ _. Ends-modify _

  Ends-after_delete :
      (temp_id node : _) (graded : RunState) (index : ℕ) (o : Option Error)
      → Ends {e = e} (after_delete temp_id node graded index o)
  unfolding confirm_removal report_orphan
  Ends-after_delete temp_id node graded index none =
      Ends-bind _ _ (Ends-modify _) λ _. Ends-bind _ _ (Ends-end _ _ _ _ _) λ _. Ends-modify _
  Ends-after_delete temp_id node graded index (some x) =
      Ends-bind _ _ (Ends-modify _) λ _. Ends-bind _ _ (Ends-end _ _ _ _ _) λ _. Ends-raise _

  Ends-destroy : (temp_id node : _) (graded : RunState) → Ends {e = e} (destroy temp_id node graded)
  unfolding destroy stop_quietly delete_once
  Ends-destroy temp_id node graded = Ends-bind _ _ (Ends-begin _ _) λ index.
      Ends-bind _ _ (Ends-on_error _ _ (Ends-retry _ _ _ (Ends-call _ _)) λ _. Ends-pure tt) λ _.
        Ends-bind _ _
          (Ends-on_error _ _ (Ends-bind _ _ (Ends-call _ _) λ _. Ends-pure none)
            λ x. Ends-pure (some x))
          λ failure. Ends-after_delete temp_id node graded index failure

  Ends-cleanup : (p : Plan) (opts : RunOptions) → Ends {e = e} (cleanup p opts)
  unfolding cleanup
  Ends-cleanup p opts = Ends-bind _ _ (Ends-gets _) λ created.
      Ends-bind _ _ (Ends-gets _) λ temp_id. Ends-bind _ _ (Ends-gets _) λ node.
        Ends-bind _ _ (Ends-gets _) λ run.
          Ends-if _ _ _ (Ends-modify _)
            (Ends-if _ _ _ (Ends-skip_cleanup _) (Ends-destroy temp_id node _))

  Ends-run_dry_run : (p : Plan) (opts : RunOptions) → Ends {e = e} (run_dry_run p opts)
  unfolding run_dry_run
  Ends-run_dry_run p opts = Ends-bind _ _ (Ends-discover_backup p) λ _.
      Ends-bind _ _ (Ends-begin _ _) λ index.
        Ends-bind _ _ (Ends-validate_environment p opts index)
          λ node. Ends-bind _ _ (Ends-end _ _ _ _ _) λ _. Ends-modify _

  Ends-remember : (prep : Prepared) → Ends {e = e} (remember prep)
  unfolding remember
  Ends-remember prep = record { halts = record { at = λ s h. h } }

module _ {e : Engine} {time : e.World → ℕ} (t : Ticking e time) (fuel : ℕ) (p : Plan)
    (enough : p.startup.timeout < fuel) where
  Ends-drill_steps :
      (opts : RunOptions) (prep : Prepared) → Ends {e = e} (drill_steps fuel p opts prep)
  unfolding drill_steps
  Ends-drill_steps opts prep = Ends-bind _ _ (Ends-restore_workload p opts prep) λ _.
      Ends-bind _ _ (Ends-start_workload p prep.temp_id) λ _.
        Ends-bind _ _ (Ends-wait_for_guest time t fuel p prep.temp_id enough) λ target.
          Ends-bind _ _
            (Ends-if (is_empty p.checks) _ _ (Ends-pure tt) (
              Ends-on_error _ _ (Ends-run_checks p target)
                λ x. Ends-bind _ _ (Ends-modify _) λ _. Ends-raise x))
            λ _. Ends-modify _

  Ends-workflow : (opts : RunOptions) → Ends {e = e} (workflow fuel p opts)
  unfolding workflow
  Ends-workflow opts = Ends-if _ _ _ (Ends-run_dry_run p opts) (
      Ends-bind _ _ (Ends-discover_backup p) λ _.
        Ends-bind _ _ (Ends-prepare_environment p opts)
          λ prep. Ends-bind _ _ (Ends-remember prep) λ _. Ends-drill_steps opts prep)

abbrev pub Any : {e : Engine} → Session e → Type 0
Any s = Unit

abbrev pub Never : {e : Engine} → Session e → Type 0
Never s = ⊥

abbrev End : {e : Engine} {A : Type 0} → Outcome A → Session e → Type 0
End = Done (λ _. Late (λ _. 0) 0) (Late (λ _. 0) 0)

conclude-returns :
    {e : Engine} (errs : List Error) (r : Outcome (Unit {0})) (s : Session e)
    → End r s
    → EndsAs (λ _. Any) Any Never (conclude errs r s)
conclude-returns errs (ok _) s h = tt
conclude-returns errs (err x) s h = tt
conclude-returns errs (panic x) s h = tt
conclude-returns errs out_of_fuel s h = h

cleaned-returns :
    {e : Engine} (p : Plan) (opts : RunOptions) (errs : List Error) (s : Session e)
    → EndsAs (λ _. Any) Any Never (conclude errs (cleanup p opts s).0 (cleanup p opts s).1)
cleaned-returns p opts errs s =
    conclude-returns errs _ _ ((Ends-cleanup p opts).halts.at s (omega arith))

deferred-returns :
    {e : Engine} (p : Plan) (opts : RunOptions) (r : Outcome (Unit {0})) (s : Session e)
    → End r s
    → EndsAs (λ _. Any) Any Never (deferred p opts r s)
unfolding deferred
deferred-returns p opts out_of_fuel s h = h
deferred-returns p opts (ok a) s h = cleaned-returns p opts _ _
deferred-returns p opts (err x) s h = cleaned-returns p opts _ _
deferred-returns p opts (panic x) s h = cleaned-returns p opts _ _

-- A drill ends. Where the clock of the engine goes forward as `Ticking` says, a fuel above the
-- startup timeout of the plan is enough: `Run` returns, or a panic of the deferred cleanup ends it.
pub run-returns :
    (e : Engine) (time : e.World → ℕ) (fuel : ℕ) (p : Plan) (opts : RunOptions) (w : e.World)
    → Ticking e time
    → p.startup.timeout < fuel
    → EndsAs (λ _. Any) Any Never (run e fuel p opts w)
unfolding run
run-returns e time fuel p opts w t enough =
    let (r, s) = workflow fuel p opts (begin_run e p opts w) in
    deferred-returns p opts r s
      ((Ends-workflow t fuel p enough opts).halts.at (begin_run e p opts w) (omega arith))
