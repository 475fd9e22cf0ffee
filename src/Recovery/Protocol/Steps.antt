-- ===== src/Recovery/Protocol/Steps.antt =====
-- The steps of the workflow against the protocol.
use restorelab.Prelude.{
  ℕ, zero, suc, refl, String, Option, none, some, List, [], ◌∷◌, inl, inr, ◌⊎◌,
}
use restorelab.Core.Check.{CheckConfig, CheckResult}
use restorelab.Core.Errors.{ProviderError}
use restorelab.Core.Types.{Backup, NetworkConfig, WorkloadStatus}
use restorelab.Plan.{Plan, BackupStrategy, unstated, latest, specific, unsupported}
use restorelab.Recovery.Engine.{Engine, Session, RunOptions, Target}
use restorelab.Recovery.Steps.Discover.{
  discover_backup, resolve_source_name, resolve_backup, check_age, found_or_no_backup, by_strategy,
}
use restorelab.Recovery.Steps.Prepare.{
  resolve_node, check_network_isolation, check_capacity, validate_environment, validate_isolation,
  compare_capacity, ValidateIsolation, NodeCapacity,
}
use restorelab.Recovery.Steps.Guest.{
  poll_status, guest_is_up, interrupted_wait, wait_a_round, wait_loop, wait_for_guest,
}
use restorelab.Recovery.Steps.Checks.{emit_results, run_all, all_run, judge, run_checks}
use restorelab.Recovery.Protocol.Silent.{
  Same, Same-refl, Silent-retry, Silent-emit, Silent-sleep, Silent, Silent-pure, Silent-raise,
  Silent-gets, Silent-if, Silent-query, Silent-on_error, Silent-bind, Silent-clock, Silent-modify,
  Silent-end, Silent-begin, Silent-or_fail, silent_rules,
}

module _ {e : Engine} where
  Silent-resolve_source_name : Silent {e = e} resolve_source_name
  unfolding resolve_source_name
  Silent-resolve_source_name = Silent-bind _ _ (Silent-gets _) λ run.
      Silent-on_error _ _ (Silent-bind _ _ (Silent-query _ _) λ w. Silent-modify _ (λ r. refl))
        (λ _. Silent-pure tt)

  Silent-found : (o : Option Backup) → Silent {e = e} (found_or_no_backup o)
  Silent-found none = search silent_rules
  Silent-found (some b) = search silent_rules

  Silent-by_strategy : (b : BackupStrategy) (p : Plan) → Silent {e = e} (by_strategy b p)
  Silent-by_strategy specific p = Silent-bind _ _ (Silent-query _ _) λ bs. Silent-found _
  Silent-by_strategy unstated p = Silent-query _ _
  Silent-by_strategy latest p = Silent-query _ _
  Silent-by_strategy (unsupported _) p = Silent-query _ _

  Silent-resolve_backup : (p : Plan) → Silent {e = e} (resolve_backup p)
  unfolding resolve_backup
  Silent-resolve_backup p = Silent-by_strategy p.backup.strategy p

  Silent-check_age : (p : Plan) (b : Backup) → Silent {e = e} (check_age p b)
  unfolding check_age
  Silent-check_age p b = search silent_rules

  pub Silent-discover_backup : (p : Plan) → Silent {e = e} (discover_backup p)
  unfolding discover_backup
  Silent-discover_backup p = Silent-bind _ _ (Silent-begin _ _) λ index.
      Silent-bind _ _ Silent-resolve_source_name λ _.
        Silent-bind _ _ (Silent-or_fail _ _ _ _ (Silent-resolve_backup p)) λ backup.
          Silent-bind _ _ (Silent-or_fail _ _ _ _ (Silent-check_age p backup))
            λ _. Silent-bind _ _ (Silent-modify _ (λ r. refl)) λ _. Silent-end _ _ _ _ _

  pub Silent-resolve_node : (p : Plan) (opts : RunOptions) → Silent {e = e} (resolve_node p opts)
  unfolding resolve_node
  Silent-resolve_node p opts = Silent-bind _ _ (Silent-gets _) λ run.
      Silent-if _ _ _ (Silent-raise _)
        (Silent-bind _ _ (Silent-modify _ (λ r. refl)) λ _. Silent-pure _)

  Silent-validate_isolation :
      (v : ValidateIsolation e) (node : String) (network : NetworkConfig)
      → Silent {e = e} (validate_isolation {e = e} v node network)
  Silent-validate_isolation none node network = search silent_rules
  Silent-validate_isolation (some v) node network = search silent_rules

  Silent-check_network_isolation :
      (node : String) (network : NetworkConfig)
      → Silent {e = e} (check_network_isolation node network)
  unfolding check_network_isolation
  Silent-check_network_isolation node network =
      Silent-if _ _ _ (Silent-raise _) (Silent-validate_isolation _ node network)

  Silent-compare_capacity :
      (c : NodeCapacity e) (node : String) (limit : ℕ)
      → Silent {e = e} (compare_capacity {e = e} c node limit)
  Silent-compare_capacity none node limit = search silent_rules
  Silent-compare_capacity (some c) node limit = search silent_rules

  Silent-check_capacity : (node : String) (limit : ℕ) → Silent {e = e} (check_capacity node limit)
  unfolding check_capacity
  Silent-check_capacity node limit =
      Silent-if _ _ _ (Silent-pure _) (Silent-compare_capacity _ node limit)

  pub Silent-validate_environment :
      (p : Plan) (opts : RunOptions) (index : ℕ)
      → Silent {e = e} (validate_environment p opts index)
  unfolding validate_environment
  Silent-validate_environment p opts index =
      Silent-bind _ _ (Silent-or_fail _ _ _ _ (Silent-resolve_node p opts)) λ node.
        Silent-bind _ _ (Silent-or_fail _ _ _ _ (Silent-check_network_isolation node opts.network))
          λ _.
            Silent-bind _ _ (Silent-or_fail _ _ _ _ (Silent-check_capacity node _))
              λ _. Silent-pure node

  Silent-poll_status : (temp_id : String) → Silent {e = e} (poll_status temp_id)
  unfolding poll_status
  Silent-poll_status temp_id = Silent-retry _ _ _ (Silent-query _ _)

  Silent-guest_is_up :
      (p : Plan) (temp_id : String) (index : ℕ) (s : WorkloadStatus)
      → Silent {e = e} (guest_is_up p temp_id index s)
  unfolding guest_is_up
  Silent-guest_is_up p temp_id index s = Silent-bind _ _ (Silent-modify _ (λ r. refl)) λ _.
      Silent-bind _ _ (Silent-gets _)
        λ run. Silent-bind _ _ (Silent-end _ _ _ _ _) λ _. Silent-pure _

  Silent-interrupted_wait : (x : Option ProviderError) → Silent {e = e} (interrupted_wait x)
  Silent-interrupted_wait none = Silent-pure tt
  Silent-interrupted_wait (some x) = Silent-raise _

  Silent-wait_a_round :
      (p : Plan) (index deadline : ℕ) → Silent {e = e} (wait_a_round p index deadline)
  unfolding wait_a_round
  Silent-wait_a_round p index deadline = Silent-bind _ _ Silent-clock λ now.
      Silent-if _ _ _ (Silent-or_fail _ _ _ _ (Silent-raise _)) (
        Silent-bind _ _ Silent-clock λ later.
          Silent-bind _ _ (Silent-sleep _) λ x. Silent-or_fail _ _ _ _ (Silent-interrupted_wait x))

  Silent-wait_loop :
      (fuel : ℕ) (p : Plan) (temp_id : String) (index deadline : ℕ)
      → Silent {e = e} (wait_loop fuel p temp_id index deadline)
  unfolding wait_loop
  Silent-wait_loop zero p temp_id index deadline = record { at = λ s c. Same-refl s }
  Silent-wait_loop (suc fuel) p temp_id index deadline =
      let again = Silent-wait_loop fuel p temp_id index deadline in
      Silent-bind _ _ (Silent-or_fail _ _ _ _ (Silent-poll_status temp_id)) λ status.
        Silent-if _ _ _ (Silent-guest_is_up p temp_id index status)
          (Silent-bind _ _ (Silent-wait_a_round p index deadline) λ _. again)

  pub Silent-wait_for_guest :
      (fuel : ℕ) (p : Plan) (temp_id : String) → Silent {e = e} (wait_for_guest fuel p temp_id)
  unfolding wait_for_guest
  Silent-wait_for_guest fuel p temp_id = Silent-bind _ _ (Silent-begin _ _) λ index.
      Silent-if _ _ _
        (Silent-bind _ _ (Silent-end _ _ _ _ _)
          λ _. Silent-bind _ _ (Silent-gets _) λ run. Silent-pure _)
        (Silent-bind _ _ Silent-clock λ started. Silent-wait_loop fuel p temp_id index _)

  Silent-emit_results : (rs : List CheckResult) → Silent {e = e} (emit_results rs)
  unfolding emit_results
  Silent-emit_results [] = Silent-pure tt
  Silent-emit_results (r ∷ rs) =
      let rest = Silent-emit_results rs in
      Silent-bind _ _ Silent-clock λ at. Silent-bind _ _ (Silent-emit _ _ _ _ _) λ _. rest

  Silent-run_all :
      (target : Target) (cfgs : List CheckConfig) → Silent {e = e} (run_all target cfgs)
  unfolding run_all
  Silent-run_all target cfgs = record {
    at = λ s c. let (r, w) = e.run_all target cfgs s.world in answers r w s;
  }
    where
      answers :
          (r : String ⊎ List CheckResult) (w : e.World) (s : Session e) → Same s (all_run r w s).1
      answers (inl x) w s = record {
        same_phase = refl;
        same_need = refl;
        same_temp = refl;
        same_said = refl;
      }
      answers (inr rs) w s = record {
        same_phase = refl;
        same_need = refl;
        same_temp = refl;
        same_said = refl;
      }

  Silent-judge : (fs us : List String) → Silent {e = e} (judge fs us)
  unfolding judge
  Silent-judge (f ∷ fs) us = Silent-raise _
  Silent-judge [] (u ∷ us) = Silent-raise _
  Silent-judge [] [] = Silent-pure tt

  pub Silent-run_checks : (p : Plan) (target : Target) → Silent {e = e} (run_checks p target)
  unfolding run_checks
  Silent-run_checks p target = Silent-bind _ _ (Silent-begin _ _) λ index.
      Silent-bind _ _ (Silent-run_all target _) λ results.
        Silent-bind _ _ (Silent-modify _ (λ r. refl)) λ _.
          Silent-bind _ _ (Silent-emit_results results) λ _.
            Silent-bind _ _ (Silent-or_fail _ _ _ _ (Silent-judge _ _)) λ _. Silent-end _ _ _ _ _
