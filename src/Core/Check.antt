-- ===== src/Core/Check.antt =====
-- internal/core/check.go: the configuration of a check and its result.
use restorelab.Prelude.{ℕ, Bool, true, false, ◌||◌, String, Option, none, some, List, is_some}
use restorelab.Core.Float.{Float64}
use restorelab.Core.Proof.{ProofLevel}

-- The values that YAML puts under a parameter's key: a text, a list whose elements may be texts,
-- or anything else, with the rendering that `%v` gives it.
pub data Value : Type 0 where
  text : String → Value
  items : List (Option String) → String → Value
  other : String → Value

pub record AssertSpec : Type 0 where
  pub min : Option Float64
  pub max : Option Float64
  pub equals : Option Float64

-- `Any` on a possibly nil pointer.
unfoldable pub any_bound : Option AssertSpec → Bool
any_bound none = false
any_bound (some a) = is_some a.min || is_some a.max || is_some a.equals

pub record DriftSpec : Type 0 where
  pub max_drop : Float64
  pub max_drop_is_percent : Bool

-- Durations are nanoseconds.
pub record CheckConfig : Type 0 where
  pub type : String
  pub name : String
  pub timeout : ℕ
  pub retries : ℕ
  pub retry_interval : ℕ
  pub critical : Bool
  pub params : List (String × Value)
  pub proves : ProofLevel
  pub capture : String
  pub assert : Option AssertSpec
  pub drift : Option DriftSpec

pub data CheckStatus : Type 0 where
  check_pass check_fail check_error check_skipped : CheckStatus

-- The message is left out; `captured` is the number table under the details' key "captured".
pub record CheckResult : Type 0 where
  pub name : String
  pub type : String
  pub status : CheckStatus
  pub attempts : ℕ
  pub captured : List (String × Float64)

unfoldable pub is_pass : CheckStatus → Bool
is_pass check_pass = true
is_pass _ = false

unfoldable pub is_ok : CheckResult → Bool
unfolding is_pass
is_ok r = is_pass r.status
