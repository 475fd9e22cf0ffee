-- ===== src/Recovery/Steps/Guest.antt =====
-- `waitForGuest`, `pollStatus` and `guestReady` of internal/recovery/steps.go.
use restorelab.Prelude.{
  ℕ, zero, suc, ◌+◌, ◌-◌, Bool, true, false, not, ◌&&◌, String, Option, none, some, List, [], ltb,
  str_eq, if◌then◌else◌,
}
use restorelab.Core.Errors.{ProviderError, provider, wait_interrupted, guest_timeout}
use restorelab.Core.Proof.{proof_boot}
use restorelab.Core.Proof as Proof
use restorelab.Core.Run.{RunState, StepStatus, StepName, RecoveryRun}
use restorelab.Core.Types.{PowerState, WorkloadStatus, power_running, primary_ip}
use restorelab.Plan.{Plan, second, default_guest_poll_every, waits_for_ip, waits_for_agent}
use restorelab.Recovery.Engine.{
  Engine, Target, Query, M, out_of_fuel, query, ◌>>=◌, ◌>>◌, pure, raise, call, current_run,
  modify_run, clock, begin_step, end_step, or_fail,
}
use restorelab.Recovery.Steps.Retry.{retry, sleep}

abbrev pub is_running : PowerState → Bool
is_running power_running = true
is_running _ = false

unfoldable pub guest_ready : WorkloadStatus → Plan → Bool
guest_ready s p =
    if not (is_running s.power_state)
    then false
    else if waits_for_agent p.startup && not s.agent_ready
    then false
    else if not (str_eq p.startup.ip "")
    then true
    else if waits_for_ip p.startup
    then not (str_eq (primary_ip s) "")
    else true

unfoldable pub poll_status : {e : Engine} → String → M e WorkloadStatus
poll_status {e} temp_id = retry 3 second (call (λ _. query Query.get_status) (e.get_status temp_id))

-- The agent's answer is what establishes the boot.
abbrev pub witness_boot : WorkloadStatus → RecoveryRun → RecoveryRun
witness_boot s r = record r {
  proof_level = if s.agent_ready then Proof.raise r.proof_level proof_boot else r.proof_level;
}

abbrev pub target_at : String → List String → String → RecoveryRun → Target
target_at ip ips temp_id run = record {
  ip = ip;
  ips = ips;
  workload_id = temp_id;
  node = run.node;
  name = run.source_name;
}

abbrev pub guest_ip : Plan → WorkloadStatus → String
guest_ip p s = if str_eq p.startup.ip "" then primary_ip s else p.startup.ip

unfoldable pub guest_is_up : {e : Engine} → Plan → String → ℕ → WorkloadStatus → M e Target
guest_is_up p temp_id index s = do
  modify_run (witness_boot s)
  run ← current_run
  end_step StepName.wait_for_guest RunState.waiting_for_guest index StepStatus.done none
  pure (target_at (guest_ip p s) s.ips temp_id run)

abbrev pub interrupted_wait : {e : Engine} → Option ProviderError → M e (Unit {0})
interrupted_wait none = pure tt
interrupted_wait (some x) = raise (wait_interrupted (provider x))

-- `wait := pollEvery; if remaining < wait { wait = remaining }`
abbrev pub wait_time : ℕ → ℕ → ℕ
wait_time deadline now =
    if ltb (deadline - now) default_guest_poll_every
    then deadline - now
    else default_guest_poll_every

-- One round of the loop that did not end in an answer: the deadline, and the sleep before the next.
unfoldable pub wait_a_round : {e : Engine} → Plan → ℕ → ℕ → M e (Unit {0})
wait_a_round p index deadline = do
  now ← clock
  if not (ltb now deadline)
      then or_fail StepName.wait_for_guest RunState.waiting_for_guest index
          (raise (guest_timeout p.startup.timeout))
      else do
        later ← clock
        interrupted ← sleep (wait_time deadline later)
        or_fail StepName.wait_for_guest RunState.waiting_for_guest index
            (interrupted_wait interrupted)

-- The `for` loop, with fuel for its rounds.
unfoldable pub wait_loop : {e : Engine} → ℕ → Plan → String → ℕ → ℕ → M e Target
wait_loop zero p temp_id index deadline = λ s. (out_of_fuel, s)
wait_loop (suc rounds) p temp_id index deadline = do
  status ← or_fail StepName.wait_for_guest RunState.waiting_for_guest index (poll_status temp_id)
  if guest_ready status p
      then guest_is_up p temp_id index status
      else do wait_a_round p index deadline; wait_loop rounds p temp_id index deadline

unfoldable pub wait_for_guest : {e : Engine} → ℕ → Plan → String → M e Target
wait_for_guest fuel p temp_id = do
  index ← begin_step StepName.wait_for_guest RunState.waiting_for_guest
  if p.startup.skip
      then (do
        end_step StepName.wait_for_guest RunState.waiting_for_guest index StepStatus.skipped none
        run ← current_run
        pure (target_at "" [] temp_id run))
      else do started ← clock; wait_loop fuel p temp_id index (started + p.startup.timeout)
