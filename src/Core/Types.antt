-- ===== src/Core/Types.antt =====
-- internal/core/types.go: workloads, backups and the options of a restore. Instants and durations
-- are nanoseconds; the instant 0 is the zero time.
use restorelab.Prelude.{ℕ, ◌-◌, Bool, true, false, String, List, [], ◌∷◌, ◌==◌, ltb, if◌then◌else◌}
use Prim.Native.Char.{code}
use Prim.Native.String as Str

pub data PowerState : Type 0 where
  power_running power_stopped power_paused power_unknown : PowerState

pub record Node : Type 0 where
  pub id : String
  pub memory_total_bytes : ℕ
  pub memory_used_bytes : ℕ

-- `MemoryFreeBytes`, floored at zero as the subtraction is.
unfoldable pub memory_free_bytes : Node → ℕ
memory_free_bytes n =
    let free = n.memory_total_bytes - n.memory_used_bytes in if ltb 0 free then free else 0

pub record Workload : Type 0 where
  pub id : String
  pub name : String
  pub node : String

pub record Backup : Type 0 where
  pub id : String
  pub workload_id : String
  pub node : String
  pub created_at : ℕ

pub record NetworkConfig : Type 0 where
  pub bridge : String
  pub isolated : Bool

pub record Metadata : Type 0 where
  pub managed : Bool
  pub recovery_run_id : String
  pub source_id : String
  pub created_at : ℕ

pub record RestoreOptions : Type 0 where
  pub target_workload_id : String
  pub name : String
  pub node : String
  pub storage : String
  pub pool : String
  pub network : NetworkConfig
  pub cpu_limit : ℕ
  pub memory_limit_mb : ℕ
  pub bandwidth_kibps : ℕ
  pub start : Bool
  pub metadata : Metadata

pub record TaskState : Type 0 where
  pub success : Bool
  pub message : String

pub record WorkloadStatus : Type 0 where
  pub power_state : PowerState
  pub agent_ready : Bool
  pub ips : List String

-- `isIPv6`: the address holds a colon.
unfoldable pub is_ipv6 : String → Bool
is_ipv6 Str.[] = false
is_ipv6 (Str.◌∷◌ c rest) = let later = is_ipv6 rest in if code c == b':' then true else later

first_or_empty : List String → String
first_or_empty [] = ""
first_or_empty (ip ∷ _) = ip

first_ipv4 : List String → String → String
first_ipv4 [] fallback = fallback
first_ipv4 (ip ∷ ips) fallback =
    let later = first_ipv4 ips fallback in if is_ipv6 ip then later else ip

-- `PrimaryIP`: the first address that is not IPv6, else the first, else "".
unfoldable pub primary_ip : WorkloadStatus → String
unfolding is_ipv6 first_or_empty first_ipv4
primary_ip s = first_ipv4 s.ips (first_or_empty s.ips)
