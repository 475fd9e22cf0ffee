-- ===== src/Recovery/Protocol/Silent.antt =====
-- Actions that move the protocol nowhere: they ask, read the clock, emit and write the run record.
use text.Mathlib.TextPositions.{eq_refl}
use restorelab.Prelude.{
  ℕ, zero, suc, ◌≡◌, refl, ◌∙◌, Bool, true, false, String, Option, none, some, if◌then◌else◌,
}
use restorelab.Core.Errors.{Error, ProviderError, is_retryable}
use restorelab.Core.Run.{RunState, StepStatus, StepName, RecoveryRun}
use restorelab.Core.Check.{CheckResult}
use restorelab.Recovery.Engine.{
  Engine, Session, Reply, Outcome, Query, M, ok, err, panic, out_of_fuel, query, ◌>>=◌, continue,
  recover, pure, raise, on_error, call, gets, modify_run, clock, emit_event, begin_step, end_step,
  or_fail,
}
use restorelab.Recovery.Steps.Retry.{retry, retry_more, sleep, unless_interrupted}
use restorelab.Recovery.Protocol.{Phase, names, on_emit, phase}

-- An event that says `w` leaves the phase as it is.
abbrev pub Calm : Phase → String → Type 0
Calm ph w = on_emit w ph ≡ ph

pub names_self : (id : String) (ph : Phase) → names id id ph ≡ ph
names_self id ph = rw eq_refl

pub record Same {e : Engine} (s s' : Session e) : Type 0 where
  pub same_phase : phase s' ≡ phase s
  pub same_need : s'.needs_cleanup ≡ s.needs_cleanup
  pub same_temp : s'.temp_id ≡ s.temp_id
  pub same_said : s'.run.temp_workload_id ≡ s.run.temp_workload_id

pub record Silent {e : Engine} {A : Type 0} (m : M e A) : Type 0 where
  pub at : (s : Session e) → Calm (phase s) s.run.temp_workload_id → Same s (m s).1

pub Same-refl : {e : Engine} (s : Session e) → Same s s
Same-refl s = record { same_phase = refl; same_need = refl; same_temp = refl; same_said = refl }

pub Same-trans : {e : Engine} {s t u : Session e} → Same s t → Same t u → Same s u
Same-trans p q = record {
  same_phase = q.same_phase ∙ p.same_phase;
  same_need = q.same_need ∙ p.same_need;
  same_temp = q.same_temp ∙ p.same_temp;
  same_said = q.same_said ∙ p.same_said;
}

pub Same-Calm :
    {e : Engine} {s t : Session e}
    → Same s t
    → Calm (phase s) s.run.temp_workload_id
    → Calm (phase t) t.run.temp_workload_id
Same-Calm p c = rw (p.same_phase, p.same_said) c

module _ {e : Engine} {A : Type 0} where
  pub Silent-pure : (a : A) → Silent {e = e} (pure a)
  unfolding pure
  Silent-pure a = record { at = λ s c. Same-refl s }

  pub Silent-raise : (x : Error) → Silent {e = e} {A = A} (raise x)
  unfolding raise
  Silent-raise x = record { at = λ s c. Same-refl s }

  pub Silent-gets : (f : Session e → A) → Silent (gets f)
  unfolding gets
  Silent-gets f = record { at = λ s c. Same-refl s }

  pub Silent-if : (b : Bool) (m n : M e A) → Silent m → Silent n → Silent (if b then m else n)
  Silent-if true m n km kn = km
  Silent-if false m n km kn = kn

  pub Silent-query :
      (q : Query) (f : e.World → Reply A × e.World) → Silent {e = e} (call (λ _. query q) f)
  unfolding call
  Silent-query q f = record {
    at = λ s c. record { same_phase = refl; same_need = refl; same_temp = refl; same_said = refl };
  }

  Silent-recover :
      (r : Outcome A) (h : Error → M e A) → ((x : Error) → Silent (h x)) → Silent (recover r h)
  Silent-recover (ok a) h kh = record { at = λ s c. Same-refl s }
  Silent-recover (err x) h kh = kh x
  Silent-recover (panic x) h kh = record { at = λ s c. Same-refl s }
  Silent-recover out_of_fuel h kh = record { at = λ s c. Same-refl s }

  pub Silent-on_error :
      (m : M e A) (h : Error → M e A)
      → Silent m
      → ((x : Error) → Silent (h x))
      → Silent (on_error m h)
  unfolding on_error
  Silent-on_error m h km kh = record {
    at = λ s c.
        let (r, s') = m s in
        Same-trans (km.at s c) ((Silent-recover r h kh).at s' (Same-Calm (km.at s c) c));
  }

module _ {e : Engine} {A B : Type 0} where
  Silent-continue :
      (r : Outcome A) (f : A → M e B) → ((a : A) → Silent (f a)) → Silent (continue r f)
  Silent-continue (ok a) f kf = kf a
  Silent-continue (err x) f kf = record { at = λ s c. Same-refl s }
  Silent-continue (panic x) f kf = record { at = λ s c. Same-refl s }
  Silent-continue out_of_fuel f kf = record { at = λ s c. Same-refl s }

  pub Silent-bind :
      (m : M e A) (f : A → M e B) → Silent m → ((a : A) → Silent (f a)) → Silent (m >>= f)
  unfolding ◌>>=◌
  Silent-bind m f km kf = record {
    at = λ s c.
        let (r, s') = m s in
        Same-trans (km.at s c) ((Silent-continue r f kf).at s' (Same-Calm (km.at s c) c));
  }

module _ {e : Engine} where
  pub Silent-clock : Silent {e = e} clock
  unfolding clock
  Silent-clock = record {
    at = λ s c. record { same_phase = refl; same_need = refl; same_temp = refl; same_said = refl };
  }

  pub Silent-sleep : (d : ℕ) → Silent {e = e} (sleep d)
  unfolding sleep
  Silent-sleep d = record {
    at = λ s c. record { same_phase = refl; same_need = refl; same_temp = refl; same_said = refl };
  }

  pub Silent-modify :
      (f : RecoveryRun → RecoveryRun)
      → ((r : RecoveryRun) → (f r).temp_workload_id ≡ r.temp_workload_id)
      → Silent {e = e} (modify_run f)
  unfolding modify_run
  Silent-modify f keep = record {
    at = λ s c. record {
      same_phase = refl;
      same_need = refl;
      same_temp = refl;
      same_said = keep s.run;
    };
  }

  pub Silent-emit :
      (state : RunState) (step : StepName) (status : StepStatus) (check : Option CheckResult)
      (x : Option Error)
      → Silent {e = e} (emit_event state step status check x)
  unfolding emit_event
  Silent-emit state step status check x = record {
    at = λ s c. record { same_phase = c; same_need = refl; same_temp = refl; same_said = refl };
  }

  pub Silent-begin : (name : StepName) (state : RunState) → Silent {e = e} (begin_step name state)
  unfolding begin_step
  Silent-begin name state = Silent-bind _ _ (Silent-modify _ (λ r. refl)) λ _.
      Silent-bind _ _ Silent-clock λ started. Silent-bind _ _ (Silent-gets _) λ index.
        Silent-bind _ _ (Silent-modify _ (λ r. refl))
          λ _. Silent-bind _ _ (Silent-emit _ _ _ _ _) λ _. Silent-pure index

  pub Silent-end :
      (name : StepName) (state : RunState) (index : ℕ) (status : StepStatus) (x : Option Error)
      → Silent {e = e} (end_step name state index status x)
  unfolding end_step
  Silent-end name state index status x =
      Silent-bind _ _ Silent-clock
        λ at. Silent-bind _ _ (Silent-modify _ (λ r. refl)) λ _. Silent-emit _ _ _ _ _

module _ {e : Engine} {A : Type 0} where
  pub Silent-or_fail :
      (name : StepName) (state : RunState) (index : ℕ) (m : M e A)
      → Silent m
      → Silent (or_fail name state index m)
  unfolding or_fail
  Silent-or_fail name state index m km =
      Silent-on_error m _ km λ x. Silent-bind _ _ (Silent-end _ _ _ _ _) λ _. Silent-raise x

  Silent-unless :
      (x : Error) (again : M e A) (i : Option ProviderError)
      → Silent again
      → Silent (unless_interrupted x again i)
  Silent-unless x again none k = k
  Silent-unless x again (some i) k = Silent-raise x

  Silent-retry_more :
      (more backoff : ℕ) (fn : M e A) → Silent fn → Silent (retry_more more backoff fn)
  unfolding retry_more
  Silent-retry_more zero backoff fn k = k
  Silent-retry_more (suc more) backoff fn k =
      let again = Silent-retry_more more backoff fn k in
      Silent-on_error fn _ k λ x.
        Silent-if (is_retryable x) _ _
          (Silent-bind _ _ (Silent-sleep backoff) λ i. Silent-unless x _ i again) (Silent-raise x)

  pub Silent-retry :
      (attempts backoff : ℕ) (fn : M e A) → Silent fn → Silent (retry attempts backoff fn)
  unfolding retry
  Silent-retry attempts backoff fn k = Silent-retry_more _ backoff fn k

pub ruleset silent_rules = (
  Silent-pure, Silent-raise, Silent-gets, Silent-if, Silent-query, Silent-on_error, Silent-bind,
  Silent-clock, Silent-sleep, Silent-emit, Silent-begin, Silent-end, Silent-or_fail, Silent-retry,
)
