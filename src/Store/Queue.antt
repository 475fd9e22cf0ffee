-- ===== src/Store/Queue.antt =====
-- internal/store/queue.go, with `CreateRun`, `UpdateRun` and `SetTempWorkload` of runs.go: each
-- statement as a function of the table of runs. A failure of the database itself is passed on by the
-- source and leaves the table as it is; it is not modelled.
use restorelab.Prelude.{
  ℕ, ◌+◌, ◌/◌, Bool, true, false, not, ◌&&◌, String, Option, none, some, map_option, map, List, [],
  ◌∷◌, ◌++◌, ltb, ◌==◌, str_eq, if◌then◌else◌,
}
use restorelab.Core.Run.{RunState, RecoveryRun}
use restorelab.Core.Errors.{Error}
use restorelab.Core.Proof.{proof_none}
use restorelab.Store.Table.{
  update_where, count_where, select_where, find_where, any_where, least, sort_by, sorts_before,
  null_string,
}
use restorelab.Store.Row.{
  Row, QueuedRun, scan_queued_run, is_null, is_queued, in_terminal_states, or_empty,
}

abbrev pub has_id : String → Row → Bool
has_id id r = str_eq r.id id

abbrev pub open_run : Row → Bool
open_run r = not (in_terminal_states r.state)

abbrev pub null_int : ℕ → Option ℕ
null_int n = if n == 0 then none else some n

abbrev pub millis : ℕ → ℕ
millis d = d / 1000000

-- The row that `enqueueSQL` inserts.
unfoldable pub queued_row : RecoveryRun → String → ℕ → Row
queued_row run plan_yaml at = record {
  id = run.id;
  plan_name = run.plan_name;
  plan_snapshot = plan_yaml;
  plan_id = null_string run.plan_id;
  plan_version = null_int run.plan_version;
  provider_id = run.provider_id;
  backup_provider_id = null_string run.backup_provider_id;
  source_workload_id = run.source_workload_id;
  source_name = null_string run.source_name;
  temp_workload_id = none;
  temp_name = none;
  node = none;
  backup = none;
  state = RunState.queued;
  result = none;
  started_at = at;
  completed_at = none;
  queued_at = some at;
  rto_ms = 0;
  rto_target_ms = millis run.rto_target;
  cleanup_done = false;
  err = none;
  proof_level = proof_none;
  cancel_requested_at = none;
  lease_owner = none;
  lease_expires_at = none;
  notified_at = none;
}

-- The primary key refuses a row whose id is taken.
abbrev pub inserted : Bool → Row → List Row → Option (List Row)
inserted true r t = none
inserted false r t = some (t ++ r ∷ [])

unfoldable pub insert_row : Row → List Row → Option (List Row)
insert_row r t = inserted (any_where (has_id r.id) t) r t

unfoldable pub enqueue : RecoveryRun → String → ℕ → List Row → Option (List Row)
enqueue run plan_yaml at t = insert_row (queued_row run plan_yaml at) t

-- `text` is what the store writes for the error of a run.
abbrev pub error_column : (Error → String) → Option Error → Option String
error_column text none = none
error_column text (some x) = null_string (text x)

-- The columns of `updateRunSQL`.
unfoldable pub set_progress : (Error → String) → RecoveryRun → Row → Row
set_progress text run r = record r {
  source_name = null_string run.source_name;
  temp_workload_id = null_string run.temp_workload_id;
  temp_name = null_string run.temp_name;
  node = null_string run.node;
  backup = run.backup;
  state = run.state;
  result = run.result;
  completed_at = null_int run.completed_at;
  rto_ms = millis run.rto;
  rto_target_ms = millis run.rto_target;
  cleanup_done = run.cleanup_done;
  err = error_column text run.err;
  proof_level = run.proof_level;
}

-- `CreateRun`: the row of a run that starts at once, which is on no queue.
unfoldable pub create_run : (Error → String) → RecoveryRun → String → List Row → Option (List Row)
create_run text run plan_yaml t =
    insert_row
      (record (set_progress text run (queued_row run plan_yaml run.started_at)) {
        queued_at = none;
      })
      t

unfoldable pub update_run : (Error → String) → RecoveryRun → List Row → List Row
update_run text run t = update_where (has_id run.id) (set_progress text run) t

unfoldable pub set_temp_workload : String → String → String → List Row → List Row
set_temp_workload id temp node t =
    update_where (has_id id)
      (λ r. record r { temp_workload_id = null_string temp; node = null_string node }) t

unfoldable pub set_state : String → RunState → List Row → List Row
set_state id state t =
    update_where (λ r. has_id id r && open_run r) (λ r. record r { state = state }) t

unfoldable pub set_run_error : String → String → List Row → List Row
set_run_error id message t =
    update_where (has_id id) (λ r. record r { err = null_string message }) t

-- `RequestCancel`: settled at once, asked, or refused.
pub data CancelAnswer : Type 0 where
  settled asked not_found : CancelAnswer
  already_settled : RunState → CancelAnswer

abbrev pub waits : String → Row → Bool
waits id r = has_id id r && (is_queued r.state && is_null r.lease_owner)

abbrev pub refuse_cancel : Option Row → CancelAnswer
refuse_cancel none = not_found
refuse_cancel (some r) = already_settled r.state

abbrev pub cancel_row : ℕ → Row → Row
cancel_row at r = record r {
  state = RunState.cancelled;
  completed_at = some at;
  cancel_requested_at = some at;
}

abbrev pub ask_row : ℕ → Row → Row
ask_row at r = record r { cancel_requested_at = some at }

-- The two UPDATEs of `RequestCancel`.
unfoldable pub cancel_waiting : String → ℕ → List Row → List Row
cancel_waiting id at t = update_where (waits id) (cancel_row at) t

unfoldable pub ask_to_stop : String → ℕ → List Row → List Row
ask_to_stop id at t = update_where (λ r. has_id id r && open_run r) (ask_row at) t

-- The first of the three statements that finds the row decides. They are no transaction: `others` and
-- `later` are what is written before the second one and before the third.
unfoldable pub request_cancel :
    String → ℕ → (List Row → List Row) → (List Row → List Row) → List Row → CancelAnswer × List Row
request_cancel id at others later t =
    let t' = cancel_waiting id at t in
    if count_where (waits id) t == 1
    then (settled, t')
    else let t'' = others t' in
      if count_where (λ r. has_id id r && open_run r) t'' == 1
      then (asked, ask_to_stop id at t'')
      else let t3 = later (ask_to_stop id at t'') in (refuse_cancel (find_where (has_id id) t3), t3)

unfoldable pub cancel_requested : String → List Row → Option Bool
cancel_requested id t =
    map_option (λ r. not (is_null r.cancel_requested_at)) (find_where (has_id id) t)

-- `ActiveRunForWorkload`: the oldest open run of the workload.
unfoldable pub active_run_for_workload : String → List Row → Option String
active_run_for_workload workload t =
    map_option (λ r. r.id)
      (least (λ x y. ltb x.started_at y.started_at)
        (select_where (λ r. str_eq r.source_workload_id workload && open_run r) t))

abbrev pub claimable : Row → Bool
claimable r = is_queued r.state && is_null r.lease_owner

-- `nulls_first` is the dialect's order of NULL.
abbrev pub queued_before : Bool → Row → Row → Bool
queued_before nulls_first x y = sorts_before nulls_first x.queued_at y.queued_at

abbrev pub unleased : String → Row → Bool
unleased id r = has_id id r && is_null r.lease_owner

abbrev pub lease_row : String → ℕ → Row → Row
lease_row owner until r = record r { lease_owner = some owner; lease_expires_at = some until }

-- The UPDATE of `claimLocked`; a transaction that took no row is rolled back.
abbrev pub take_lease : String → ℕ → Option Row → List Row → Option QueuedRun × List Row
take_lease owner until none t = (none, t)
take_lease owner until (some r) t =
    if count_where (unleased r.id) t == 1
    then (some (scan_queued_run r), update_where (unleased r.id) (lease_row owner until) t)
    else (none, t)

-- `ClaimRun`, while no other transaction holds a row; `none` is `ErrNoWork`.
unfoldable pub claim_run : Bool → String → ℕ → ℕ → List Row → Option QueuedRun × List Row
claim_run nulls_first owner lease now t =
    take_lease owner (now + lease) (least (queued_before nulls_first) (select_where claimable t)) t

abbrev pub held_by : String → String → Row → Bool
held_by id owner r =
    has_id id r && (not (is_null r.lease_owner) && str_eq (or_empty r.lease_owner) owner)

-- `RenewLease`: false for the error of a lease that is lost.
unfoldable pub renew_lease : String → String → ℕ → List Row → Bool × List Row
renew_lease id owner until t = (
  count_where (held_by id owner) t == 1,
  update_where (held_by id owner) (λ r. record r { lease_expires_at = some until }) t,
)

unfoldable pub finish_lease : String → List Row → List Row
finish_lease id t = update_where (has_id id) (λ r. record r { lease_expires_at = none }) t

unfoldable pub run_lease : String → List Row → Option (String × Option ℕ)
run_lease id t =
    map_option (λ r. (or_empty r.lease_owner, r.lease_expires_at)) (find_where (has_id id) t)

abbrev pub expired : ℕ → Option ℕ → Bool
expired now none = false
expired now (some at) = ltb at now

abbrev pub stale : ℕ → Row → Bool
stale now r = not (is_null r.lease_owner) && (open_run r && expired now r.lease_expires_at)

unfoldable pub stale_runs : Bool → ℕ → List Row → List QueuedRun
stale_runs nulls_first now t =
    map scan_queued_run (sort_by (queued_before nulls_first) (select_where (stale now) t))
