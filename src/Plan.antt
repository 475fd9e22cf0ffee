-- ===== src/Plan.antt =====
-- internal/plan/plan.go: a recovery plan and what the engine reads of it. Durations are nanoseconds.
pub mod Text
pub mod Proof
pub mod Defaults
use restorelab.Prelude.{
  ℕ, ◌*◌, Bool, true, false, not, String, Option, none, some, List, [], ◌∷◌, ◌==◌, str_eq,
  if◌then◌else◌,
}
use restorelab.Core.Check.{Value, AssertSpec, DriftSpec}
use Prim.Native.String.{◌++◌}
use restorelab.Plan.Text.{to_upper}

abbrev pub second : ℕ
second = 1_000_000_000

abbrev pub default_startup_timeout : ℕ
default_startup_timeout = 300 * second

abbrev pub default_check_timeout : ℕ
default_check_timeout = 30 * second

abbrev pub default_restore_timeout : ℕ
default_restore_timeout = 3600 * second

abbrev pub default_retry_interval : ℕ
default_retry_interval = 5 * second

abbrev pub default_guest_poll_every : ℕ
default_guest_poll_every = 3 * second

-- A strategy is a string; `unstated` is the empty one.
pub data BackupStrategy : Type 0 where
  unstated latest specific : BackupStrategy
  unsupported : String → BackupStrategy

pub record WorkloadRef : Type 0 where
  pub provider : String
  pub id : String
  pub name : String

pub record BackupSpec : Type 0 where
  pub provider : String
  pub strategy : BackupStrategy
  pub id : String
  pub max_age : ℕ

pub record RestoreSpec : Type 0 where
  pub node : String
  pub storage : String
  pub pool : String
  pub network : String
  pub bridge : String
  pub cpu_limit : ℕ
  pub memory_limit_mb : ℕ
  pub bandwidth_kibps : ℕ
  pub timeout : ℕ

pub record StartupSpec : Type 0 where
  pub skip : Bool
  pub timeout : ℕ
  pub wait_for_ip : Option Bool
  pub wait_for_agent : Option Bool
  pub ip : String

pub record CleanupSpec : Type 0 where
  pub always : Option Bool
  pub keep_on_failure : Bool

pub record CheckSpec : Type 0 where
  pub type : String
  pub name : String
  pub timeout : ℕ
  pub retries : ℕ
  pub retry_interval : ℕ
  pub critical : Option Bool
  pub params : List (String × Value)
  pub proves : String
  pub capture : String
  pub assert : Option AssertSpec
  pub drift : Option DriftSpec

pub record Plan : Type 0 where
  pub name : String
  pub workload : WorkloadRef
  pub backup : BackupSpec
  pub restore : RestoreSpec
  pub startup : StartupSpec
  pub checks : List CheckSpec
  pub cleanup : CleanupSpec
  pub rto_target : ℕ
  pub schedule : String
  pub schedule_timezone : String

-- `p != nil && *p`, and `p == nil || *p`.
abbrev set_and_true : Option Bool → Bool
set_and_true none = false
set_and_true (some b) = b

abbrev unset_or_true : Option Bool → Bool
unset_or_true none = true
unset_or_true (some b) = b

unfoldable pub waits_for_ip : StartupSpec → Bool
waits_for_ip s = set_and_true s.wait_for_ip

unfoldable pub waits_for_agent : StartupSpec → Bool
waits_for_agent s = set_and_true s.wait_for_agent

unfoldable pub cleanup_always : CleanupSpec → Bool
cleanup_always c = unset_or_true c.always

unfoldable pub is_critical : CheckSpec → Bool
is_critical c = unset_or_true c.critical

-- `Duration.Or`
abbrev pub or_default : ℕ → ℕ → ℕ
or_default d fallback = if d == 0 then fallback else d

unfoldable pub param : String → List (String × Value) → Option Value
param k [] = none
param k ((j, v) ∷ rest) = if str_eq j k then some v else param k rest

-- What `%v` prints of a parameter.
unfoldable pub rendered : Value → String
rendered (Value.text s) = s
rendered (Value.items _ s) = s
rendered (Value.other s) = s

abbrev with_port : String → Option Value → String
with_port type none = to_upper type
with_port type (some port) = to_upper type ++ " " ++ rendered port

unfoldable pub display_name : CheckSpec → String
unfolding param
display_name c = if not (str_eq c.name "") then c.name else with_port c.type (param "port" c.params)
