-- ===== src/Recovery/Steps/Prepare.antt =====
-- `resolveNode`, `checkNetworkIsolation`, `checkCapacity` and `prepareEnvironment` of
-- internal/recovery/steps.go.
use restorelab.Prelude.{
  ℕ, ◌*◌, ◌%◌, ◌^◌, Bool, true, false, not, ◌&&◌, String, Option, none, some, ltb, ◌==◌, str_eq,
  if◌then◌else◌,
}
use restorelab.Core.Errors.{Error, provider, no_node, network_not_isolated, insufficient_capacity}
use restorelab.Core.Run.{RunState, StepStatus, StepName, RecoveryRun}
use restorelab.Core.Types.{Node, Backup, NetworkConfig, Metadata, memory_free_bytes}
use restorelab.Plan.{Plan}
use restorelab.Recovery.Naming.{first_non_empty, temp_workload_name}
use restorelab.Recovery.Engine.{
  Engine, Reply, RunOptions, Query, M, query, allocate, answer, ◌>>=◌, ◌>>◌, pure, raise, on_error,
  call, current_run, modify_run, clock, begin_step, end_step, or_fail,
}

abbrev pub backup_node : Option Backup → String
backup_node none = ""
backup_node (some b) = b.node

-- The options, the plan, the source's node, and at last the backup's.
unfoldable pub chosen_node : RunOptions → Plan → RecoveryRun → String
chosen_node opts p run =
    let node = first_non_empty opts.node (first_non_empty p.restore.node run.node) in
    if str_eq node "" then backup_node run.backup else node

unfoldable pub resolve_node : {e : Engine} → Plan → RunOptions → M e String
resolve_node p opts = do
  run ← current_run
  if str_eq (chosen_node opts p run) "" then raise no_node else do
    modify_run (λ r. record r { node = chosen_node opts p run })
    pure (chosen_node opts p run)

abbrev pub is_unverified : Error → Bool
is_unverified (provider x) = x.isolation_unverified
is_unverified _ = false

abbrev pub ValidateIsolation : Engine → Type 0
ValidateIsolation e = Option (String → NetworkConfig → e.World → Reply (Unit {0}) × e.World)

-- An isolation that the provider could not read is let through, any other refusal is not.
abbrev pub validate_isolation :
    {e : Engine} → ValidateIsolation e → String → NetworkConfig → M e (Unit {0})
validate_isolation none node network = pure tt
validate_isolation (some validate) node network =
    on_error (call (λ _. query Query.validate_isolation) (validate node network))
      (λ x. if is_unverified x then pure tt else raise x)

unfoldable pub check_network_isolation : {e : Engine} → String → NetworkConfig → M e (Unit {0})
check_network_isolation {e} node network =
    if not network.isolated
    then raise network_not_isolated
    else validate_isolation e.validate_isolation node network

-- `int64(memoryLimitMB) * 1024 * 1024`, as the 64 bits of the product.
abbrev pub needed_bits : ℕ → ℕ
needed_bits memory_limit_mb = memory_limit_mb * 1024 * 1024 % 2 ^ 64

-- `free < needed`: false where the product has wrapped to a negative number.
unfoldable pub lacks : ℕ → ℕ → Bool
lacks free memory_limit_mb =
    ltb (needed_bits memory_limit_mb) (2 ^ 63) && ltb free (needed_bits memory_limit_mb)

abbrev pub NodeCapacity : Engine → Type 0
NodeCapacity e = Option (String → e.World → Reply Node × e.World)

abbrev pub compare_capacity : {e : Engine} → NodeCapacity e → String → ℕ → M e (Unit {0})
compare_capacity none node limit = pure tt
compare_capacity (some capacity) node limit = do
  n ← call (λ _. query Query.node_capacity) (capacity node)
  if lacks (memory_free_bytes n) limit
      then raise (insufficient_capacity (memory_free_bytes n) (needed_bits limit))
      else pure tt

unfoldable pub check_capacity : {e : Engine} → String → ℕ → M e (Unit {0})
check_capacity {e} node limit =
    if limit == 0 then pure tt else compare_capacity e.node_capacity node limit

-- The four results of `prepareEnvironment`.
pub record Prepared : Type 0 where
  pub temp_id : String
  pub temp_name : String
  pub metadata : Metadata
  pub node : String

abbrev pub prepared : (e : Engine) → Plan → RecoveryRun → String → String → ℕ → ℕ → Prepared
prepared e p run id node named stamped = record {
  temp_id = id;
  temp_name = temp_workload_name p.workload.id (e.stamp named);
  metadata = record {
    managed = true;
    recovery_run_id = run.id;
    source_id = p.workload.id;
    created_at = stamped;
  };
  node = node;
}

abbrev pub reserve : Prepared → RecoveryRun → RecoveryRun
reserve prep r = record r {
  temp_workload_id = prep.temp_id;
  temp_name = prep.temp_name;
  node = prep.node;
}

-- What stands behind the capacity check: the first call that the provider may act on.
unfoldable pub allocate_identity : {e : Engine} → Plan → String → ℕ → M e Prepared
allocate_identity {e} p node index = do
  id ←
      or_fail StepName.prepare_environment RunState.preparing index
        (call (λ r. allocate (answer r)) e.allocate_workload_id)
  run ← current_run
  named ← clock
  stamped ← clock
  let prep = prepared e p run id node named stamped
  modify_run (reserve prep)
  end_step StepName.prepare_environment RunState.preparing index StepStatus.done none
  pure prep

-- The checks that a dry run makes too.
unfoldable pub validate_environment : {e : Engine} → Plan → RunOptions → ℕ → M e String
validate_environment p opts index = do
  node ← or_fail StepName.prepare_environment RunState.preparing index (resolve_node p opts)
  or_fail StepName.prepare_environment RunState.preparing index
      (check_network_isolation node opts.network)
  or_fail StepName.prepare_environment RunState.preparing index
      (check_capacity node p.restore.memory_limit_mb)
  pure node

unfoldable pub prepare_environment : {e : Engine} → Plan → RunOptions → M e Prepared
prepare_environment p opts = do
  index ← begin_step StepName.prepare_environment RunState.preparing
  node ← validate_environment p opts index
  allocate_identity p node index
