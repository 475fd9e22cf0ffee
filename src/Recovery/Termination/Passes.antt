-- ===== src/Recovery/Termination/Passes.antt =====
-- Actions that end, and that keep a reading of the clock of the world where it was or later.
use restorelab.Prelude.{
  ℕ, zero, suc, ◌≤◌, Bool, true, false, Option, none, some, arith, if◌then◌else◌,
}
use restorelab.Core.Check.{CheckResult}
use restorelab.Core.Errors.{Error, ProviderError, is_retryable}
use restorelab.Core.Run.{RunState, StepStatus, StepName, RecoveryRun}
use restorelab.Recovery.Engine.{
  Engine, Session, Reply, Entry, Outcome, M, answered, refused, crashed, outcome, ok, err, panic,
  out_of_fuel, ◌>>=◌, continue, recover, pure, raise, on_error, call, gets, modify_run, clock,
  emit_event, begin_step, end_step, or_fail,
}
use restorelab.Recovery.Steps.Retry.{sleep, unless_interrupted, retry_more, retry}

-- An end other than the end of the fuel, with what holds of the session then.
abbrev pub Done :
    {e : Engine} {A : Type 0}
    → (A → Session e → Type 0)
    → (Session e → Type 0)
    → Outcome A
    → Session e
    → Type 0
Done Q E (ok a) s = Q a s
Done Q E (err x) s = E s
Done Q E (panic x) s = Unit
Done Q E out_of_fuel s = ⊥

pub record Halts {e : Engine} {A : Type 0} (P : Session e → Type 0) (m : M e A)
    (Q : A → Session e → Type 0) (E : Session e → Type 0) : Type 0 where
  pub at : (s : Session e) → P s → Done Q E (m s).0 (m s).1

module _ {e : Engine} {A B : Type 0} where
  Done-continue :
      {Q : A → Session e → Type 0} {R : B → Session e → Type 0} {E : Session e → Type 0}
      (r : Outcome A) (f : A → M e B) (s : Session e)
      → Done Q E r s
      → ((a : A) → Halts (Q a) (f a) R E)
      → Done R E (continue r f s).0 (continue r f s).1
  Done-continue (ok a) f s h kf = (kf a).at s h
  Done-continue (err x) f s h kf = h
  Done-continue (panic x) f s h kf = tt
  Done-continue out_of_fuel f s h kf = absurd h

  pub Halts-bind :
      {P : Session e → Type 0} {Q : A → Session e → Type 0} {R : B → Session e → Type 0}
      {E : Session e → Type 0} {m : M e A} {f : A → M e B}
      → Halts P m Q E
      → ((a : A) → Halts (Q a) (f a) R E)
      → Halts P (m >>= f) R E
  unfolding ◌>>=◌
  Halts-bind {m = m} {f = f} km kf = record {
    at = λ s h. let (r, s') = m s in Done-continue r f s' (km.at s h) kf;
  }

module _ {e : Engine} {A : Type 0} where
  Done-recover :
      {Q : A → Session e → Type 0} {F E : Session e → Type 0} (r : Outcome A) (h : Error → M e A)
      (s : Session e)
      → Done Q F r s
      → ((x : Error) → Halts F (h x) Q E)
      → Done Q E (recover r h s).0 (recover r h s).1
  Done-recover (ok a) h s k kh = k
  Done-recover (err x) h s k kh = (kh x).at s k
  Done-recover (panic x) h s k kh = tt
  Done-recover out_of_fuel h s k kh = absurd k

  pub Halts-on_error :
      {P : Session e → Type 0} {Q : A → Session e → Type 0} {F E : Session e → Type 0} {m : M e A}
      {h : Error → M e A}
      → Halts P m Q F
      → ((x : Error) → Halts F (h x) Q E)
      → Halts P (on_error m h) Q E
  unfolding on_error
  Halts-on_error {m = m} {h = h} km kh = record {
    at = λ s p. let (r, s') = m s in Done-recover r h s' (km.at s p) kh;
  }

-- The clock of the world, read by `time`, has reached `k`.
abbrev pub Late : {e : Engine} → (e.World → ℕ) → ℕ → Session e → Type 0
Late time k s = k ≤ time s.world

pub record Passes {e : Engine} {A : Type 0} (time : e.World → ℕ) (k : ℕ) (m : M e A) : Type 0 where
  pub halts : Halts (Late time k) m (λ _. Late time k) (Late time k)

module _ {e : Engine} (time : e.World → ℕ) (k : ℕ) where
  module _ {A : Type 0} where
    pub Passes-pure : (a : A) → Passes time k (pure {e = e} a)
    unfolding pure
    Passes-pure a = record { halts = record { at = λ s h. h } }

    pub Passes-raise : (x : Error) → Passes time k (raise {e = e} {A = A} x)
    unfolding raise
    Passes-raise x = record { halts = record { at = λ s h. h } }

    pub Passes-gets : (f : Session e → A) → Passes time k (gets f)
    unfolding gets
    Passes-gets f = record { halts = record { at = λ s h. h } }

    pub Passes-if :
        (b : Bool) {m n : M e A}
        → Passes time k m
        → Passes time k n
        → Passes time k (if b then m else n)
    Passes-if true km kn = km
    Passes-if false km kn = kn

    pub Passes-on_error :
        {m : M e A} {h : Error → M e A}
        → Passes time k m
        → ((x : Error) → Passes time k (h x))
        → Passes time k (on_error m h)
    Passes-on_error km kh = record { halts = Halts-on_error km.halts (λ x. (kh x).halts) }

    pub Passes-call :
        (log : Reply A → Entry) (f : e.World → Reply A × e.World)
        → ((w : e.World) → time w ≤ time (f w).1)
        → Passes time k (call {e = e} log f)
    unfolding call
    Passes-call log f mono = record {
      halts = record {
        at = λ s h. let (r, w) = f s.world in ends r _ (omega (arith, h, mono s.world));
      };
    }
      where
        ends :
            (r : Reply A) (s : Session e)
            → Late time k s
            → Done (λ _. Late time k) (Late time k) (outcome r) s
        ends (answered a) s h = h
        ends (refused x) s h = h
        ends (crashed x) s h = tt

  module _ {A B : Type 0} where
    pub Passes-bind :
        {m : M e A} {f : A → M e B}
        → Passes time k m
        → ((a : A) → Passes time k (f a))
        → Passes time k (m >>= f)
    Passes-bind km kf = record { halts = Halts-bind km.halts (λ a. (kf a).halts) }

  pub Passes-modify : (f : RecoveryRun → RecoveryRun) → Passes time k (modify_run {e = e} f)
  unfolding modify_run
  Passes-modify f = record { halts = record { at = λ s h. h } }

  pub Passes-emit :
      (state : RunState) (step : StepName) (status : StepStatus) (check : Option CheckResult)
      (x : Option Error)
      → Passes time k (emit_event {e = e} state step status check x)
  unfolding emit_event
  Passes-emit state step status check x = record { halts = record { at = λ s h. h } }

-- A reading of the clock that never goes back.
pub record Forward (e : Engine) (time : e.World → ℕ) : Type 0 where
  pub now_keeps : (w : e.World) → time w ≤ time (e.now w).1
  pub sleep_keeps : (d : ℕ) (w : e.World) → time w ≤ time (e.sleep d w).1

module _ {e : Engine} {time : e.World → ℕ} (fwd : Forward e time) (k : ℕ) where
  pub Passes-clock : Passes time k (clock {e = e})
  unfolding clock
  Passes-clock = record { halts = record { at = λ s h. omega (arith, h, fwd.now_keeps s.world) } }

  pub Passes-sleep : (d : ℕ) → Passes time k (sleep {e = e} d)
  unfolding sleep
  Passes-sleep d = record {
    halts = record { at = λ s h. omega (arith, h, fwd.sleep_keeps d s.world) };
  }

  pub Passes-begin :
      (name : StepName) (state : RunState) → Passes time k (begin_step {e = e} name state)
  unfolding begin_step
  Passes-begin name state = Passes-bind time k (Passes-modify time k _) λ _.
      Passes-bind time k Passes-clock λ started. Passes-bind time k (Passes-gets time k _) λ index.
        Passes-bind time k (Passes-modify time k _)
          λ _. Passes-bind time k (Passes-emit time k _ _ _ _ _) λ _. Passes-pure time k index

  pub Passes-end :
      (name : StepName) (state : RunState) (index : ℕ) (status : StepStatus) (x : Option Error)
      → Passes time k (end_step {e = e} name state index status x)
  unfolding end_step
  Passes-end name state index status x =
      Passes-bind time k Passes-clock
        λ at. Passes-bind time k (Passes-modify time k _) λ _. Passes-emit time k _ _ _ _ _

  module _ {A : Type 0} where
    pub Passes-or_fail :
        (name : StepName) (state : RunState) (index : ℕ) {m : M e A}
        → Passes time k m
        → Passes time k (or_fail name state index m)
    unfolding or_fail
    Passes-or_fail name state index km =
        Passes-on_error time k km
          λ x. Passes-bind time k (Passes-end _ _ _ _ _) λ _. Passes-raise time k x

    Passes-unless :
        (x : Error) {again : M e A} (i : Option ProviderError)
        → Passes time k again
        → Passes time k (unless_interrupted x again i)
    Passes-unless x none h = h
    Passes-unless x (some i) h = Passes-raise time k x

    Passes-retry_more :
        (more backoff : ℕ) {fn : M e A}
        → Passes time k fn
        → Passes time k (retry_more more backoff fn)
    unfolding retry_more
    Passes-retry_more zero backoff h = h
    Passes-retry_more (suc more) backoff h =
        let again = Passes-retry_more more backoff h in
        Passes-on_error time k h λ x.
          Passes-if time k (is_retryable x)
            (Passes-bind time k (Passes-sleep backoff) λ i. Passes-unless x i again)
            (Passes-raise time k x)

    pub Passes-retry :
        (attempts backoff : ℕ) {fn : M e A}
        → Passes time k fn
        → Passes time k (retry attempts backoff fn)
    unfolding retry
    Passes-retry attempts backoff h = Passes-retry_more _ backoff h
