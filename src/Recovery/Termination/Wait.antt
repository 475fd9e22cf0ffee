-- ===== src/Recovery/Termination/Wait.antt =====
-- The wait for the guest: what the clock does in a round, and how many rounds there can be.
use restorelab.Prelude.{
  ℕ, zero, suc, ◌+◌, ◌<◌, ◌≤◌, ◌≡◌, refl, Bool, true, false, not, String, Option, none, some, ltb,
  arith, if◌then◌else◌,
}
use restorelab.Core.Errors.{Error, ProviderError}
use restorelab.Core.Types.{WorkloadStatus}
use restorelab.Core.Run.{RunState, StepName}
use restorelab.Plan.{Plan}
use restorelab.Recovery.Engine.{
  Engine, Session, Outcome, ok, err, panic, out_of_fuel, M, clock, pure, raise, or_fail,
}
use restorelab.Recovery.Steps.Guest.{
  guest_ready, poll_status, guest_is_up, interrupted_wait, wait_time, wait_a_round, wait_loop,
  wait_for_guest,
}
use restorelab.Recovery.Steps.Retry.{sleep}
use restorelab.Recovery.Termination.Passes.{
  Done, Halts, Halts-bind, Halts-on_error, Late, Forward, Passes-call, Passes-retry,
}
use restorelab.Recovery.Termination.Steps.{
  Ends, Ends-pure, Ends-gets, Ends-if, Ends-bind, Ends-modify, Ends-begin, Ends-end,
}

-- What the engine relies on of its clock, whose reading of a world is `time`: it is read between the
-- call and the return, a sleep that nothing interrupts lasts at least as long as it was asked to, and
-- no call sets the clock back.
pub record Ticking (e : Engine) (time : e.World → ℕ) : Type 0 where
  pub read_after : (w : e.World) → time w ≤ (e.now w).0
  pub read_before : (w : e.World) → (e.now w).0 ≤ time (e.now w).1
  pub sleep_lasts :
      (d : ℕ) (w : e.World) → (e.sleep d w).0 ≡ none → time w + d ≤ time (e.sleep d w).1
  pub sleep_keeps : (d : ℕ) (w : e.World) → time w ≤ time (e.sleep d w).1
  pub status_keeps : (id : String) (w : e.World) → time w ≤ time (e.get_status id w).1

abbrev Any : {e : Engine} → Session e → Type 0
Any s = Unit

module _ {e : Engine} {A : Type 0} where
  Done-weaken :
      (Q R : A → Session e → Type 0) (E : Session e → Type 0) (r : Outcome A) (s : Session e)
      → ((a : A) → Q a s → R a s)
      → Done Q E r s
      → Done R Any r s
  Done-weaken Q R E (ok a) s f h = f a h
  Done-weaken Q R E (err x) s f h = tt
  Done-weaken Q R E (panic x) s f h = tt
  Done-weaken Q R E out_of_fuel s f h = absurd h

module _ {e : Engine} {A : Type 0} {P : Session e → Type 0} {Q : A → Session e → Type 0} where
  Halts-weaken :
      {R : A → Session e → Type 0} {E : Session e → Type 0} {m : M e A}
      → Halts P m Q E
      → ((a : A) (s : Session e) → Q a s → R a s)
      → Halts P m R Any
  Halts-weaken {m = m} h f = record {
    at = λ s p. let (r, s') = m s in Done-weaken _ _ _ r s' (λ a. f a s') (h.at s p);
  }

  Halts-when :
      {P' : Session e → Type 0} {m : M e A}
      → ((s : Session e) → P' s → P s)
      → Halts P m Q Any
      → Halts P' m Q Any
  Halts-when f h = record { at = λ s p. h.at s (f s p) }

  Halts-test :
      (b : Bool) {m n : M e A}
      → (b ≡ true → Halts P m Q Any)
      → (b ≡ false → Halts P n Q Any)
      → Halts P (if b then m else n) Q Any
  Halts-test true f g = f refl
  Halts-test false f g = g refl

module _ {e : Engine} {A : Type 0} where
  Halts-raise :
      {P : Session e → Type 0} {Q : A → Session e → Type 0} (x : Error)
      → Halts P (raise {e = e} x) Q Any
  unfolding raise
  Halts-raise x = record { at = λ s p. tt }

  Halts-Ends : {m : M e A} → Ends m → Halts Any m (λ _. Any) Any
  Halts-Ends h = record { at = λ s p. (Halts-weaken h.halts (λ a s q. tt)).at s (omega arith) }

  Ends-Halts : {m : M e A} → Halts Any m (λ _. Any) Any → Ends m
  Ends-Halts {m = m} h = record {
    halts = record { at = λ s p. let (r, s') = m s in ends r s' (h.at s tt) };
  }
    where
      ends :
          (r : Outcome A) (s : Session e)
          → Done (λ _. Any) Any r s
          → Done (λ _. Late (λ _. 0) 0) (Late (λ _. 0) 0) r s
      ends (ok a) s h = omega arith
      ends (err x) s h = omega arith
      ends (panic x) s h = tt
      ends out_of_fuel s h = h

module _ {e : Engine} {A : Type 0} {P : Session e → Type 0} {Q : A → Session e → Type 0} where
  Halts-or_fail :
      (name : StepName) (state : RunState) (index : ℕ) {m : M e A}
      → Halts P m Q Any
      → Halts P (or_fail name state index m) Q Any
  unfolding or_fail
  Halts-or_fail name state index h =
      Halts-on_error h λ x. Halts-bind (Halts-Ends (Ends-end _ _ _ _ _)) λ _. Halts-raise x

abbrev clock_of : {e : Engine} {time : e.World → ℕ} → Ticking e time → Forward e time
clock_of t = record {
  now_keeps = λ w. omega (arith, t.read_after w, t.read_before w);
  sleep_keeps = t.sleep_keeps;
}

pause_enough :
    (deadline k later : ℕ) → k < deadline → k ≤ later → suc k ≤ later + wait_time deadline later
pause_enough deadline k later h h' = ground arith

module _ {e : Engine} (time : e.World → ℕ) (t : Ticking e time) where
  -- The clock was read at `now`, at `k` or later.
  abbrev Read : ℕ → ℕ → Session e → Type 0
  Read k now s = (k ≤ now) × (now ≤ time s.world)

  Halts-clock : (k : ℕ) → Halts (Late time k) (clock {e = e}) (Read k) Any
  unfolding clock
  Halts-clock k = record {
    at = λ s h. (omega (arith, h, t.read_after s.world), t.read_before s.world);
  }

  Halts-reread :
      (k now deadline : ℕ)
      → now < deadline
      → Halts (Read k now) (clock {e = e}) (λ later s. (k < deadline) × Read k later s) Any
  unfolding clock
  Halts-reread k now deadline early = record {
    at = λ s h. (
      omega (arith, h.0, early),
      (omega (arith, h.0, h.1, t.read_after s.world), t.read_before s.world),
    );
  }

  -- The loop goes on: its deadline is not reached, and the clock is past `k`.
  abbrev GoesOn : ℕ → ℕ → Session e → Type 0
  GoesOn deadline k s = (k < deadline) × Late {e = e} time (suc k) s

  Halts-pause :
      (k later deadline : ℕ)
      → Halts
          (λ s. (k < deadline) × Read k later s)
          (sleep {e = e} (wait_time deadline later))
          (λ x s. (x ≡ none) → GoesOn deadline k s)
          Any
  unfolding sleep
  Halts-pause k later deadline = record {
    at = λ s h n. (
      h.0,
      omega (arith, h.1.1, pause_enough deadline k later h.0 h.1.0, t.sleep_lasts _ s.world n),
    );
  }

  Halts-interrupted :
      (x : Option ProviderError) {P : Session e → Type 0}
      → Halts (λ s. (x ≡ none) → P s) (interrupted_wait x) (λ _. P) Any
  unfolding pure raise
  Halts-interrupted none = record { at = λ s h. h refl }
  Halts-interrupted (some x) = record { at = λ s h. tt }

  Halts-round :
      (p : Plan) (index deadline k : ℕ)
      → Halts (Late time k) (wait_a_round p index deadline) (λ _. GoesOn deadline k) Any
  unfolding wait_a_round
  Halts-round p index deadline k = Halts-bind (Halts-clock k) λ now.
      Halts-test (not (ltb now deadline)) (λ over. Halts-or_fail _ _ _ (Halts-raise _))
        λ early. Halts-bind (Halts-reread k now deadline (ground (arith, early))) λ later.
          Halts-bind (Halts-pause k later deadline) λ x. Halts-or_fail _ _ _ (Halts-interrupted x)

  Halts-poll :
      (k : ℕ) (temp_id : String)
      → Halts (Late time k) (poll_status {e = e} temp_id) (λ _. Late time k) Any
  unfolding poll_status
  Halts-poll k temp_id =
      Halts-weaken
        (Passes-retry (clock_of t) k _ _ (Passes-call time k _ _ (t.status_keeps temp_id))).halts
        (λ _ s h. h)

  Ends-guest_is_up :
      (p : Plan) (temp_id : String) (index : ℕ) (s : WorkloadStatus)
      → Ends {e = e} (guest_is_up p temp_id index s)
  unfolding guest_is_up
  Ends-guest_is_up p temp_id index s =
      Ends-bind _ _ (Ends-modify _)
        λ _. Ends-bind _ _ (Ends-gets _) λ run. Ends-bind _ _ (Ends-end _ _ _ _ _) λ _. Ends-pure _

  Halts-wait_loop :
      (fuel : ℕ) (p : Plan) (temp_id : String) (index deadline k : ℕ)
      → k ≤ deadline
      → deadline < k + fuel
      → Halts (Late time k) (wait_loop {e = e} fuel p temp_id index deadline) (λ _. Any) Any
  unfolding wait_loop
  Halts-wait_loop zero p temp_id index deadline k h h' = record { at = λ s _. omega (arith, h, h') }
  Halts-wait_loop (suc fuel) p temp_id index deadline k h h' =
      Halts-bind (Halts-or_fail _ _ _ (Halts-poll k temp_id)) λ status.
        Halts-test _
          (λ up. Halts-when (λ s _. tt) (Halts-Ends (Ends-guest_is_up p temp_id index status)))
          λ (down : guest_ready status p ≡ false). Halts-bind (Halts-round p index deadline k) λ _.
            record {
              at = λ s g.
                  (Halts-wait_loop fuel p temp_id index deadline (suc k) (omega (arith, g.0))
                      (omega (arith, h'))).at
                    s g.1;
            }

  Halts-started : Halts Any (clock {e = e}) (Late time) Any
  unfolding clock
  Halts-started = record { at = λ s _. t.read_before s.world }

  pub Ends-wait_for_guest :
      (fuel : ℕ) (p : Plan) (temp_id : String)
      → p.startup.timeout < fuel
      → Ends {e = e} (wait_for_guest fuel p temp_id)
  unfolding wait_for_guest
  Ends-wait_for_guest fuel p temp_id enough = Ends-bind _ _ (Ends-begin _ _) λ index.
      Ends-if _ _ _
        (Ends-bind _ _ (Ends-end _ _ _ _ _) λ _. Ends-bind _ _ (Ends-gets _) λ run. Ends-pure _)
        (Ends-Halts (
          Halts-bind Halts-started λ started. record {
            at = λ s h.
                (Halts-wait_loop fuel p temp_id index _ started (omega arith)
                    (omega (arith, enough))).at
                  s h;
          }))
