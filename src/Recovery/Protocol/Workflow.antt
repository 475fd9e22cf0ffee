-- ===== src/Recovery/Protocol/Workflow.antt =====
-- The whole workflow against the protocol: whatever it ends in, the deferred block finds nothing
-- created, or a workload that its three variables describe.
use restorelab.Prelude.{ℕ, ◌≡◌, refl, inl, true, false}
use restorelab.Plan.{Plan}
use restorelab.Recovery.Engine.{Engine, Session, RunOptions, Outcome, modify_run}
use restorelab.Recovery.Steps.Prepare.{Prepared}
use restorelab.Recovery.Drill.{
  grade_success, run_dry_run, remember, drill_steps, workflow, begin_run, new_run, measure_rto,
}
use restorelab.Recovery.Protocol.{idle, announced}
use restorelab.Recovery.Protocol.Silent.{
  Silent, Silent-bind, Silent-begin, Silent-end, Silent-modify, Silent-raise, Silent-pure,
  Silent-if, Silent-on_error,
}
use restorelab.Recovery.Protocol.Steps.{
  Silent-discover_backup, Silent-validate_environment, Silent-wait_for_guest, Silent-run_checks,
}
use restorelab.Recovery.Protocol.Reserve.{prepare-Triple}
use restorelab.Recovery.Protocol.Restore.{Settled, At-Settled, settle-Triple, restore-Triple}
use restorelab.Recovery.Protocol.Start.{Up-Settled, Silent-Up, start-Triple}
use restorelab.Recovery.Protocol.Triple.{
  Ends, Triple, Triple-bind, Triple-weaken, Triple-if, At, Silent-Triple,
}

module _ {e : Engine} where
  Silent-run_dry_run : (p : Plan) (opts : RunOptions) → Silent {e = e} (run_dry_run p opts)
  unfolding run_dry_run
  Silent-run_dry_run p opts = Silent-bind _ _ (Silent-discover_backup p) λ _.
      Silent-bind _ _ (Silent-begin _ _) λ index.
        Silent-bind _ _ (Silent-validate_environment p opts index)
          λ node. Silent-bind _ _ (Silent-end _ _ _ _ _) λ _. Silent-modify _ (λ r. refl)

  Silent-grade : (p : Plan) → Silent {e = e} (modify_run (λ r. grade_success p (measure_rto r)))
  unfolding grade_success
  Silent-grade p = Silent-modify _ (λ r. refl)

  drill_steps-Triple :
      (fuel : ℕ) (p : Plan) (opts : RunOptions) (prep : Prepared)
      → opts.network.isolated ≡ true
      → let id = prep.temp_id in
        Triple {e = e}
          (At (announced id) false id id)
          (drill_steps fuel p opts prep)
          (λ _. Settled)
          Settled
  unfolding drill_steps
  drill_steps-Triple fuel p opts prep on =
      let id = prep.temp_id in
      Triple-bind (restore-Triple p opts prep on) λ _.
        Triple-weaken
          (Triple-bind (start-Triple id p) λ _.
            Triple-bind (Silent-Up id (Silent-wait_for_guest fuel p id)) λ target.
              Triple-bind
                (Silent-Up id (
                  Silent-if _ _ _ (Silent-pure tt) (
                    Silent-on_error _ _ (Silent-run_checks p target)
                      λ x. Silent-bind _ _ (Silent-modify _ (λ r. refl)) λ _. Silent-raise x)))
                λ _. Silent-Up id (Silent-grade p))
          (λ t h. inl h) (λ a t h. Up-Settled id t h) (λ t h. Up-Settled id t h)

  remember-Triple :
      (prep : Prepared)
      → let id = prep.temp_id in
        Triple {e = e}
          (At (announced id) false "" id)
          (remember prep)
          (λ _. At (announced id) false id id)
          Settled
  unfolding remember
  remember-Triple prep = record {
    at = λ s h. record { stands = h.stands; needs = h.needs; temp_is = refl; said_is = h.said_is };
  }

  pub workflow-Triple :
      (fuel : ℕ) (p : Plan) (opts : RunOptions)
      → Triple {e = e} (At idle false "" "") (workflow fuel p opts) (λ _. Settled) Settled
  unfolding workflow
  workflow-Triple fuel p opts =
      let idle_fits = At-Settled {e = e} {ph = idle} {temp = ""} {said = ""} refl in
      Triple-if opts.dry_run
        (λ _.
          Triple-weaken (Silent-Triple (Silent-run_dry_run p opts) refl) (λ t h. h)
            (λ a t h. idle_fits t h) (λ t h. idle_fits t h))
        (λ _. Triple-bind (settle-Triple refl (Silent-Triple (Silent-discover_backup p) refl)) λ _.
          Triple-bind (settle-Triple refl (prepare-Triple p opts)) λ prep. record {
            at = λ s h.
                (Triple-bind (remember-Triple prep) λ _. drill_steps-Triple fuel p opts prep h.1).at
                  s h.0;
          })

  pub begin_run-At :
      (p : Plan) (opts : RunOptions) (w : e.World) → At idle false "" "" (begin_run e p opts w)
  unfolding begin_run new_run
  begin_run-At p opts w = record { stands = refl; needs = refl; temp_is = refl; said_is = refl }

  Ends-Settled :
      (r : Outcome (Unit {0})) (s : Session e) → Ends (λ _. Settled) Settled r s → Settled s
  Ends-Settled (Outcome.ok a) s h = h
  Ends-Settled (Outcome.err x) s h = h
  Ends-Settled (Outcome.panic x) s h = h
  Ends-Settled Outcome.out_of_fuel s h = h

  pub workflow-Settled :
      (fuel : ℕ) (p : Plan) (opts : RunOptions) (w : e.World)
      → Settled (workflow fuel p opts (begin_run e p opts w)).1
  workflow-Settled fuel p opts w =
      Ends-Settled _ _ ((workflow-Triple fuel p opts).at _ (begin_run-At p opts w))
