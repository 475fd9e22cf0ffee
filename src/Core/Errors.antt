-- ===== src/Core/Errors.antt =====
-- internal/core/errors.go, with the errors that the recovery engine makes itself. An error is data
-- here and not a text: what `errors.Is` and `errors.As` can ask of it is a field or the constructor.
use restorelab.Prelude.{ℕ, Bool, false, String, List}

-- An error that a provider returned: whether it wraps `ErrIsolationUnverified`, whether it is marked
-- retryable, and its text.
pub record ProviderError : Type 0 where
  pub isolation_unverified : Bool
  pub marked_retryable : Bool
  pub message : String

pub data Error : Type 0 where
  provider : ProviderError → Error
  no_backup : Error
  stale_backup : ℕ → ℕ → Error
  no_node : Error
  network_not_isolated : Error
  insufficient_capacity : ℕ → ℕ → Error
  restore_failed : String → Error
  wait_interrupted : Error → Error
  guest_timeout : ℕ → Error
  critical_checks_failed : List String → Error
  checks_inconclusive : List String → Error
  recovered_panic : String → Error
  cancelled : Error → Error
  orphaned_workload : String → String → Error → Error

-- `IsRetryable`. The engine wraps an error of the clock with `%w`, so the mark shows through.
unfoldable pub is_retryable : Error → Bool
is_retryable (provider p) = p.marked_retryable
is_retryable (wait_interrupted e) = is_retryable e
is_retryable (cancelled e) = false
is_retryable (orphaned_workload id node e) = is_retryable e
is_retryable _ = false
