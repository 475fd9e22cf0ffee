-- ===== src/Recovery/Verdict/Quiet.antt =====
-- Actions that leave the run record as it is: calls, sleeps and what is built of them.
use restorelab.Prelude.{
  ℕ, zero, suc, ◌≡◌, refl, ◌∙◌, Bool, true, false, Option, none, some, if◌then◌else◌,
}
use restorelab.Core.Errors.{Error, ProviderError, is_retryable}
use restorelab.Recovery.Engine.{
  Engine, Session, Reply, Outcome, Entry, M, ok, err, panic, out_of_fuel, ◌>>=◌, continue, recover,
  pure, raise, on_error, call,
}
use restorelab.Recovery.Steps.Retry.{retry, retry_more, sleep, unless_interrupted}

pub record Quiet {e : Engine} {A : Type 0} (m : M e A) : Type 0 where
  pub at : (s : Session e) → (m s).1.run ≡ s.run

module _ {e : Engine} {A : Type 0} where
  pub Quiet-pure : (a : A) → Quiet {e = e} (pure a)
  unfolding pure
  Quiet-pure a = record { at = λ s. refl }

  Quiet-raise : (x : Error) → Quiet {e = e} {A = A} (raise x)
  unfolding raise
  Quiet-raise x = record { at = λ s. refl }

  pub Quiet-call :
      (log : Reply A → Entry) (f : e.World → Reply A × e.World) → Quiet {e = e} (call log f)
  unfolding call
  Quiet-call log f = record { at = λ s. refl }

  Quiet-recover :
      (r : Outcome A) (h : Error → M e A) → ((x : Error) → Quiet (h x)) → Quiet (recover r h)
  Quiet-recover (ok a) h kh = record { at = λ s. refl }
  Quiet-recover (err x) h kh = kh x
  Quiet-recover (panic x) h kh = record { at = λ s. refl }
  Quiet-recover out_of_fuel h kh = record { at = λ s. refl }

  Quiet-on_error :
      (m : M e A) (h : Error → M e A) → Quiet m → ((x : Error) → Quiet (h x)) → Quiet (on_error m h)
  unfolding on_error
  Quiet-on_error m h km kh = record {
    at = λ s. let (r, s') = m s in (Quiet-recover r h kh).at s' ∙ km.at s;
  }

module _ {e : Engine} {A B : Type 0} where
  Quiet-continue : (r : Outcome A) (f : A → M e B) → ((a : A) → Quiet (f a)) → Quiet (continue r f)
  Quiet-continue (ok a) f kf = kf a
  Quiet-continue (err x) f kf = record { at = λ s. refl }
  Quiet-continue (panic x) f kf = record { at = λ s. refl }
  Quiet-continue out_of_fuel f kf = record { at = λ s. refl }

  pub Quiet-bind : (m : M e A) (f : A → M e B) → Quiet m → ((a : A) → Quiet (f a)) → Quiet (m >>= f)
  unfolding ◌>>=◌
  Quiet-bind m f km kf = record {
    at = λ s. let (r, s') = m s in (Quiet-continue r f kf).at s' ∙ km.at s;
  }

Quiet-sleep : {e : Engine} (d : ℕ) → Quiet {e = e} (sleep d)
unfolding sleep
Quiet-sleep d = record { at = λ s. refl }

module _ {e : Engine} {A : Type 0} where
  Quiet-unless :
      (x : Error) (m : M e A) (i : Option ProviderError)
      → Quiet m
      → Quiet (unless_interrupted x m i)
  Quiet-unless x m none k = k
  Quiet-unless x m (some i) k = Quiet-raise x

  Quiet-if : (b : Bool) (m n : M e A) → Quiet m → Quiet n → Quiet (if b then m else n)
  Quiet-if true m n km kn = km
  Quiet-if false m n km kn = kn

module _ {e : Engine} {A : Type 0} where
  Quiet-retry_more : (more backoff : ℕ) (fn : M e A) → Quiet fn → Quiet (retry_more more backoff fn)
  unfolding retry_more
  Quiet-retry_more zero backoff fn k = k
  Quiet-retry_more (suc more) backoff fn k =
      let again = Quiet-retry_more more backoff fn k in
      Quiet-on_error fn _ k λ x.
        Quiet-if (is_retryable x) _ _
          (Quiet-bind _ _ (Quiet-sleep backoff) λ i. Quiet-unless x _ i again) (Quiet-raise x)

  pub Quiet-retry :
      (attempts backoff : ℕ) (fn : M e A) → Quiet fn → Quiet (retry attempts backoff fn)
  unfolding retry
  Quiet-retry attempts backoff fn k = Quiet-retry_more _ backoff fn k
