-- ===== src/Recovery/Protocol/Safety.antt =====
-- Every end of a drill: the protocol is kept, and what was created is accounted for.
use mathlib.Core.Bool.{false≢true}
use restorelab.Prelude.{
  ℕ, ◌≡◌, ◌≢◌, refl, sym, ap, ◌∙◌, Bool, true, false, not, String, List, [], ◌∷◌, ◌++◌, arith,
  if◌then◌else◌,
}
use restorelab.Core.Errors.{Error, checks_inconclusive}
use restorelab.Core.Run.{RunState, RecoveryRun}
use restorelab.Plan.{Plan}
use restorelab.Recovery.Engine.{
  Engine, Session, RunOptions, Outcome, M, ok, err, panic, out_of_fuel, ◌>>=◌, gets, modify_run,
  clock, emit_event, begin_step, end_step, pure,
}
use restorelab.Recovery.Cleanup.{cleanup, keeps_workload, destroy, skip_cleanup, set_cleanup_done}
use restorelab.Recovery.Drill.{
  Ending, returned, crashed, waiting, conclude, deferred, run, settle, mark_error, mark_failed,
  mark_inconclusive, mark_cancelled, workflow, workflow_errors, begin_run, finalize,
}
use restorelab.Recovery.Protocol.{
  Phase, idle, broken, announced, refused, restored, hardened, unhardened, started, on_emit, phase,
}
use restorelab.Recovery.Protocol as Phases
use restorelab.Recovery.Protocol.Restore.{Fits, Settled}
use restorelab.Recovery.Protocol.Triple.{At}
use restorelab.Recovery.Protocol.Contract.{Meets}
use restorelab.Recovery.Protocol.Workflow.{workflow-Settled}
use restorelab.Recovery.Protocol.Teardown.{
  IsLive, live_restored, live_hardened, live_unhardened, live_started, IsLive-Calm, Removed,
  Orphaned, Torn, destroy-Contract,
}

-- The phases of a drill that has created nothing.
pub data IsAsleep : Phase → Type 0 where
  asleep : IsAsleep idle
  asleep_announced : (id : String) → IsAsleep (announced id)
  asleep_refused : (id : String) → IsAsleep (refused id)

-- What the deferred block finds.
pub data Standing {e : Engine} (s : Session e) : Type 0 where
  nothing : s.needs_cleanup ≡ false → IsAsleep (phase s) → Standing s
  created : (id : String) → IsLive id (phase s) → At (phase s) true id id s → Standing s

Fits-Standing :
    {e : Engine} (s : Session e) (ph : Phase)
    → phase s ≡ ph
    → Fits ph s.needs_cleanup s.temp_id s.run.temp_workload_id
    → Standing s
Fits-Standing s idle p f = nothing f (rw p asleep)
Fits-Standing s (announced id) p f = nothing f.0 (rw p (asleep_announced id))
Fits-Standing s (refused id) p f = nothing f.0 (rw p (asleep_refused id))
Fits-Standing s (restored id) p f =
    created id (rw p live_restored)
      (record { stands = refl; needs = f.0; temp_is = sym f.1; said_is = sym f.2 })
Fits-Standing s (hardened id) p f =
    created id (rw p live_hardened)
      (record { stands = refl; needs = f.0; temp_is = sym f.1; said_is = sym f.2 })
Fits-Standing s (unhardened id) p f =
    created id (rw p live_unhardened)
      (record { stands = refl; needs = f.0; temp_is = sym f.1; said_is = sym f.2 })
Fits-Standing s (started id) p f =
    created id (rw p live_started)
      (record { stands = refl; needs = f.0; temp_is = sym f.1; said_is = sym f.2 })
Fits-Standing s broken p f = absurd f
Fits-Standing s (Phases.allocated id) p f = absurd f
Fits-Standing s (Phases.doomed id) p f = absurd f
Fits-Standing s (Phases.removed id) p f = absurd f
Fits-Standing s (Phases.orphaned id) p f = absurd f

pub Settled-Standing : {e : Engine} (s : Session e) → Settled s → Standing s
Settled-Standing s h = Fits-Standing s (phase s) refl h.fits

-- How a drill that returns has accounted for what it created. It was graded as `g` when its cleanup
-- began, and its workflow had failed with the errors `before`.
pub data Accounted {e : Engine} (p : Plan) (opts : RunOptions) (g : RecoveryRun)
    (before errs : List Error) (s : Session e) : Type 0 where
  untouched :
      IsAsleep (phase s)
      → s.run.cleanup_done ≡ true
      → errs ≡ before
      → Accounted p opts g before errs s
  kept :
      (id : String)
      → keeps_workload opts p g ≡ true
      → IsLive id (phase s)
      → s.run.cleanup_done ≡ false
      → errs ≡ before
      → Accounted p opts g before errs s
  removed :
      (id : String)
      → keeps_workload opts p g ≡ false
      → phase s ≡ Phases.removed id
      → s.run.cleanup_done ≡ true
      → errs ≡ before
      → Accounted p opts g before errs s
  orphaned :
      (id : String) (x : Error)
      → keeps_workload opts p g ≡ false
      → phase s ≡ Phases.orphaned id
      → s.run.cleanup_done ≡ false
      → s.run.state ≡ RunState.cleanup_failed
      → errs ≡ before ++ x ∷ []
      → Accounted p opts g before errs s

-- A drill whose cleanup panicked: the delete has been asked for, or its stop has.
abbrev pub IsTorn : {e : Engine} → Session e → Type 0
IsTorn s = (id : String) × Torn id s

module _ {e : Engine} (s : Session e) where
  -- The branches of `cleanup`, on whether something was created and whether it is to be kept.
  abbrev pub branch : Bool → Bool → M e (Unit {0})
  branch need keep =
      if not need
      then modify_run (set_cleanup_done true)
      else if keep
      then skip_cleanup s.run.state
      else destroy s.temp_id s.node s.run.state

  pub cleanup_lem :
      (p : Plan) (opts : RunOptions)
      → cleanup p opts s ≡ branch s.needs_cleanup (keeps_workload opts p s.run) s
  unfolding cleanup ◌>>=◌ gets
  cleanup_lem p opts = refl

-- What the three ways to end say of the session.
abbrev pub EndsAs :
    {e : Engine}
    → (List Error → Session e → Type 0)
    → (Session e → Type 0)
    → (Session e → Type 0)
    → Ending e
    → Type 0
EndsAs R C W (returned errs s) = R errs s
EndsAs R C W (crashed s) = C s
EndsAs R C W (waiting s) = W s

skipped-live :
    {e : Engine} (id : String) (ph : Phase) (graded : RunState) (s : Session e)
    → IsLive id ph
    → At ph true id id s
    → let (r, t) = skip_cleanup graded s in
      (r ≡ ok tt) × (phase t ≡ ph) × (t.run.cleanup_done ≡ false)
unfolding skip_cleanup begin_step end_step ◌>>=◌ modify_run clock emit_event gets pure
skipped-live id ph graded s l h = (
  refl,
  ap (λ q. on_emit s.run.temp_workload_id (on_emit s.run.temp_workload_id q)) h.stands
      ∙ rw h.said_is (ap (on_emit id) (IsLive-Calm id l) ∙ IsLive-Calm id l),
  refl,
)

abbrev pub IsKept : {e : Engine} → Session e → Type 0
IsKept s = phase s ≢ broken

Torn-IsKept : {e : Engine} (id : String) (s : Session e) → Torn id s → IsKept s
Torn-IsKept id s t = ground (arith, t.torn_at)

IsLive-ne : (id : String) {ph : Phase} → IsLive id ph → ph ≢ broken
IsLive-ne id live_restored = λ e. cc
IsLive-ne id live_hardened = λ e. cc
IsLive-ne id live_unhardened = λ e. cc
IsLive-ne id live_started = λ e. cc

IsAsleep-ne : {ph : Phase} → IsAsleep ph → ph ≢ broken
IsAsleep-ne asleep = λ e. cc
IsAsleep-ne (asleep_announced id) = λ e. cc
IsAsleep-ne (asleep_refused id) = λ e. cc

pub Standing-IsKept : {e : Engine} (s : Session e) → Standing s → IsKept s
Standing-IsKept s (nothing n a) = IsAsleep-ne a
Standing-IsKept s (created id l h) = IsLive-ne id l

module _ {e : Engine} (p : Plan) (opts : RunOptions) (before : List Error) where
  abbrev Concluded : RecoveryRun → Outcome (Unit {0}) × Session e → Type 0
  Concluded g o = EndsAs (Accounted p opts g before) IsTorn IsKept (conclude before o.0 o.1)

  destroyed-ends :
      (g : RecoveryRun) (id : String) (graded : RunState) (r : Outcome (Unit {0})) (t : Session e)
      → keeps_workload opts p g ≡ false
      → Meets (λ _. Removed id graded) (Orphaned id) (Torn id) r t
      → Concluded g (r, t)
  unfolding finalize
  destroyed-ends g id graded (ok u) t k m = removed id k m.removed_at m.done refl
  destroyed-ends g id graded (err x) t k m =
      orphaned id x k m.orphaned_at m.left (rw (m.alarm_state)) refl
  destroyed-ends g id graded (panic x) t k m = (id, m)
  destroyed-ends g id graded out_of_fuel t k m = Torn-IsKept id t m

  kept-ends :
      (g : RecoveryRun) (id : String) (ph : Phase) (r : Outcome (Unit {0})) (t : Session e)
      → keeps_workload opts p g ≡ true
      → IsLive id ph
      → r ≡ ok tt
      → phase t ≡ ph
      → t.run.cleanup_done ≡ false
      → Concluded g (r, t)
  unfolding finalize
  kept-ends g id ph r t k l done stands left = rw done (kept id k (rw stands l) left refl)

  destroy-ends :
      (id temp : String) (ph : Phase) (s : Session e)
      → temp ≡ id
      → keeps_workload opts p s.run ≡ false
      → IsLive id ph
      → At ph true id id s
      → Concluded s.run (destroy temp s.node s.run.state s)
  destroy-ends id temp ph s same k l h = rw same (
      destroyed-ends s.run id s.run.state _ _ k
        ((destroy-Contract id s.node s.run.state ph l).at s h))

  branch-ends :
      (s : Session e) (need keep : Bool)
      → s.needs_cleanup ≡ need
      → keeps_workload opts p s.run ≡ keep
      → Standing s
      → Concluded s.run (branch s need keep s)
  unfolding modify_run finalize
  branch-ends s false keep n k (nothing m a) = untouched a refl refl
  branch-ends s true keep n k (nothing m a) = absurd (false≢true (sym m ∙ n))
  branch-ends s false keep n k (created id l h) = absurd (false≢true (sym n ∙ h.needs))
  branch-ends s true true n k (created id l h) =
      let (done, stands, left) = skipped-live id (phase s) s.run.state s l h in
      kept-ends s.run id (phase s) _ _ k l done stands left
  branch-ends s true false n k (created id l h) =
      destroy-ends id s.temp_id (phase s) s h.temp_is k l h

  pub cleanup-ends : (s : Session e) → Standing s → Concluded s.run (cleanup p opts s)
  cleanup-ends s h = rw (cleanup_lem s p opts) (branch-ends s _ _ refl refl h)

mark_error-said :
    (c : Bool) (x : Error) (r : RecoveryRun)
    → (mark_error c x r).temp_workload_id ≡ r.temp_workload_id
unfolding mark_failed mark_inconclusive mark_cancelled
mark_error-said true x r = refl
mark_error-said false (checks_inconclusive names) r = refl
mark_error-said false _ r = refl

settle-said :
    (o : Outcome (Unit {0})) (c : Bool) (r : RecoveryRun)
    → (settle o c r).temp_workload_id ≡ r.temp_workload_id
unfolding settle mark_failed
settle-said (ok a) c r = refl
settle-said (err x) c r = mark_error-said c x r
settle-said (panic x) c r = refl
settle-said out_of_fuel c r = refl

-- The run record as the deferred block grades it before the cleanup.
pub verdict : (e : Engine) → ℕ → Plan → RunOptions → e.World → RecoveryRun
verdict e fuel p opts w =
    let (r, s) = workflow fuel p opts (begin_run e p opts w) in
    settle r (e.is_cancelled s.world) s.run

pub failures : (e : Engine) → ℕ → Plan → RunOptions → e.World → List Error
failures e fuel p opts w = workflow_errors (workflow fuel p opts (begin_run e p opts w)).0

module _ {e : Engine} (p : Plan) (opts : RunOptions) where
  settle-Settled :
      (s : Session e) (r : RecoveryRun)
      → r.temp_workload_id ≡ s.run.temp_workload_id
      → Settled s
      → Settled (record s { run = r })
  settle-Settled s r same h = record { fits = rw same h.fits }

  deferred-ends :
      (r : Outcome (Unit {0})) (s : Session e)
      → Settled s
      → EndsAs
          (Accounted p opts (settle r (e.is_cancelled s.world) s.run) (workflow_errors r))
          IsTorn
          IsKept
          (deferred p opts r s)
  unfolding deferred
  deferred-ends (ok a) s h =
      cleanup-ends p opts _ _
        (Settled-Standing _ (settle-Settled s _ (settle-said (ok a) _ s.run) h))
  deferred-ends (err x) s h =
      cleanup-ends p opts _ _
        (Settled-Standing _ (settle-Settled s _ (settle-said (err x) _ s.run) h))
  deferred-ends (panic x) s h =
      cleanup-ends p opts _ _
        (Settled-Standing _ (settle-Settled s _ (settle-said (panic x) _ s.run) h))
  deferred-ends out_of_fuel s h = Standing-IsKept s (Settled-Standing s h)

-- A drill that returns has kept the protocol and accounts for what it created: nothing; a workload
-- that its options or its plan say to keep; one removed by the one delete behind a stop; or an
-- orphan, which the state and the last error report. One whose cleanup panics had begun to stop the
-- workload, and one still waiting for its guest has not broken the protocol.
pub run-Accounted :
    (e : Engine) (fuel : ℕ) (p : Plan) (opts : RunOptions) (w : e.World)
    → EndsAs
        (Accounted p opts (verdict e fuel p opts w) (failures e fuel p opts w))
        IsTorn
        IsKept
        (run e fuel p opts w)
unfolding run verdict failures
run-Accounted e fuel p opts w =
    let (r, s) = workflow fuel p opts (begin_run e p opts w) in
    deferred-ends p opts r s (workflow-Settled fuel p opts w)
