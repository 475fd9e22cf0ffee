-- ===== src/Recovery/Steps/Retry.antt =====
-- internal/recovery/retry.go
use restorelab.Prelude.{ℕ, zero, suc, Option, none, some, pred, max, if◌then◌else◌}
use restorelab.Core.Errors.{Error, ProviderError, is_retryable}
use restorelab.Recovery.Engine.{Engine, M, ok, raise, on_error, ◌>>=◌}

-- `e.sleep`: the error is the context's.
unfoldable pub sleep : {e : Engine} → ℕ → M e (Option ProviderError)
sleep {e} d s = let (x, w) = e.sleep d s.world in (ok x, record s { world = w })

module _ {e : Engine} {A : Type 0} where
  -- A sleep that is interrupted ends the retries with the provider's error.
  abbrev pub unless_interrupted : Error → M e A → Option ProviderError → M e A
  unless_interrupted x again none = again
  unless_interrupted x again (some interrupted) = raise x

  -- The loop with `more` attempts left behind the one that is made first.
  unfoldable pub retry_more : ℕ → ℕ → M e A → M e A
  retry_more zero backoff fn = fn
  retry_more (suc more) backoff fn = on_error fn λ x.
      if is_retryable x
      then (do
        interrupted ← sleep backoff
        unless_interrupted x (retry_more more backoff fn) interrupted)
      else raise x

  -- `if attempts < 1 { attempts = 1 }`
  unfoldable pub retry : ℕ → ℕ → M e A → M e A
  unfolding retry_more
  retry attempts backoff fn = retry_more (pred (max attempts 1)) backoff fn
