-- ===== src/Examples/Fleet.antt =====
-- The theorems on the end of a drill, the worker, the score and the cursor.
use Prim.Native.String.{String, [] as nil, ◌∷◌ as cons}
use restorelab.Prelude.{
  ℕ, zero, suc, ◌≡◌, refl, inl, true, false, Option, none, some, map_option, [], ◌∷◌, All, arith,
  str_eq,
}
use restorelab.Prelude.Int.{pos, ◌≤ℤ◌}
use restorelab.Core.Float.{finite}
use restorelab.Core.Check.{CheckConfig, check_fail, check_pass}
use restorelab.Core.Proof.{proof_boot, rank, recorded}
use restorelab.Core.Run.{RunState, RunResult, RecoveryRun}
use restorelab.Recovery.Drill.{run}
use restorelab.Recovery.Protocol.Safety.{EndsAs}
use restorelab.Recovery.Termination.Wait.{Ticking}
use restorelab.Recovery.Termination.Return.{Any, Never, run-returns}
use restorelab.Store.Table.{select_where}
use restorelab.Store.Row.{Row}
use restorelab.Store.Queue.{has_id, stale_runs}
use restorelab.Worker.Reconcile.{Site, Shop, reconcile}
use restorelab.Worker.Reconcile.Settles.{Over, reconcile-settles}
use restorelab.Worker.Reconcile.Spares.{reconcile-spares}
use restorelab.Report.Confidence.{ConfidenceInput, ConfidenceWeights, Machine, score}
use restorelab.Report.Confidence.Bounds.{HasProven, told, boot_proven, score-InRange}
use restorelab.Report.Confidence.Verdicts.{verdicts, score-verdicts}
use restorelab.Api.Page.{Codec, encode_cursor, decode_cursor}
use restorelab.Api.Page.Cursor.{has_bar, Faithful, decode_cursor-encode_cursor}
use restorelab.Checks.Registry.{Registry, judged, run_all}
use restorelab.Checks.Registry.Accounts.{AllAccount, run_all-Accounts}
use restorelab.Examples.{cluster, a_plan, options, first_row, first_run}

cluster-Ticking : Ticking cluster (λ w. w)
cluster-Ticking = record {
  read_after = λ w. omega arith;
  read_before = λ w. omega arith;
  sleep_lasts = λ d w h. omega arith;
  sleep_keeps = λ d w. omega arith;
  status_keeps = λ id w. omega arith;
}

run-returns_example : EndsAs (λ _. Any) Any Never (run cluster 101 a_plan options 10)
run-returns_example =
    run-returns cluster (λ w. w) 101 a_plan options 10 cluster-Ticking (omega arith)

abbrev a_site : Site
a_site = record {
  World = ℕ;
  now = λ w. (w, suc w);
  fails = λ w. (false, w);
  unavailable = λ p. none;
  delete = λ p id w. (some "timeout", suc w);
  in_flight = λ id. str_eq id "run-7";
  nulls_first = true;
}

abbrev an_orphan : Row
an_orphan = record first_row {
  state = RunState.starting;
  temp_workload_id = some "9001";
  lease_owner = some "worker-1";
  lease_expires_at = some 40;
}

abbrev a_shop : Shop a_site
a_shop = record { world = 100; runs = an_orphan ∷ []; deleted = [] }

reconcile-settles_example :
    All
      (λ q. str_eq q.id "run-7" ≡ false → Over q.id (reconcile a_shop).runs)
      (stale_runs true 100 (an_orphan ∷ []))
reconcile-settles_example = reconcile-settles a_site a_shop (λ w. refl)

reconcile-spares_example :
    select_where (has_id "run-7") (reconcile a_shop).runs
    ≡ select_where (has_id "run-7") (an_orphan ∷ [])
reconcile-spares_example = reconcile-spares a_site "run-7" a_shop (inl refl)

abbrev a_machine : Machine
a_machine = record {
  age_penalty = λ grace day now at. some (pos 12);
  share = λ failed counted most. pos 15;
  clock = 500;
}

abbrev some_weights : ConfidenceWeights
some_weights = record {
  age_grace_days = finite (pos 7) 0;
  age_per_day_penalty = finite (pos 2) 0;
  age_max_penalty = pos 40;
  no_success_penalty = pos 35;
  last_run_failed_penalty = pos 30;
  last_run_degraded_penalty = pos 15;
  rto_exceeded_penalty = pos 10;
  cleanup_failed_penalty = pos 15;
  no_backup_penalty = pos 50;
  backup_stale_after = 48;
  backup_stale_penalty = pos 20;
  failure_rate_max_penalty = pos 30;
  proof_none_cap = pos 40;
  proof_boot_cap = pos 60;
  proof_service_cap = pos 85;
}

abbrev a_good_run : RecoveryRun
a_good_run = record first_run {
  state = RunState.success;
  result = some RunResult.success;
  proof_level = proof_boot;
}

abbrev an_input : ConfidenceInput
an_input = record {
  last_run = some a_good_run;
  history = some (record first_run { state = RunState.cancelled }) ∷ some a_good_run ∷ [];
  latest_backup_at = 400;
  now = 450;
}

a_proof : HasProven (an_input.last_run ∷ an_input.history) proof_boot
unfolding recorded rank
a_proof = told a_good_run RunResult.success _ refl refl

score-InRange_example :
    (pos 0 ≤ℤ (score a_machine an_input some_weights).score)
    × ((score a_machine an_input some_weights).score ≤ℤ pos 60)
score-InRange_example =
    score-InRange a_machine an_input some_weights proof_boot (pos 60) a_proof
      (boot_proven (omega arith))

score-verdicts_example :
    score a_machine (record an_input { history = verdicts an_input.history }) some_weights
    ≡ score a_machine an_input some_weights
score-verdicts_example = score-verdicts a_machine an_input some_weights

tally : ℕ → String
tally zero = ""
tally (suc n) = cons "x" (tally n)

tallied : String → Option ℕ
tallied nil = some 0
tallied (cons c s) = map_option suc (tallied s)

abbrev a_codec : Codec
a_codec = record { encode = λ s. s; decode = λ s. some s; format = tally; parse = tallied }

tallied-tally : (n : ℕ) → tallied (tally n) ≡ some n
unfolding tally tallied
tallied-tally zero = refl
tallied-tally (suc n) = rw (tallied-tally n) refl

tally_unbarred : (n : ℕ) → has_bar (tally n) ≡ false
unfolding tally has_bar
tally_unbarred zero = refl
tally_unbarred (suc n) = tally_unbarred n

a_codec-Faithful : Faithful a_codec
a_codec-Faithful = record { decodes = λ s. refl; parses = tallied-tally; unbarred = tally_unbarred }

decode_cursor-encode_cursor_example :
    decode_cursor a_codec (encode_cursor a_codec (record { started_at = 3; id = "run-1" }))
    ≡ some (record { started_at = 3; id = "run-1" })
decode_cursor-encode_cursor_example =
    decode_cursor-encode_cursor a_codec (record { started_at = 3; id = "run-1" }) a_codec-Faithful
      refl

-- A registry whose first attempt of a check fails and whose next ones pass.
abbrev a_registry : Registry
a_registry = record {
  World = ℕ;
  is_registered = λ type. str_eq type "tcp";
  attempt = λ cfg w. elim w [
    | zero ↦ (judged check_fail [], 1)
    | suc n ↦ (judged check_pass (("rows", finite (pos 4) 0) ∷ []), suc (suc n))
  ];
  ended = λ w. false;
  pause = λ d w. (false, w);
}

abbrev a_check : CheckConfig
a_check = record {
  type = "tcp";
  name = "";
  timeout = 5;
  retries = 2;
  retry_interval = 1;
  critical = true;
  params = [];
  proves = proof_boot;
  capture = "rows";
  assert = none;
  drift = none;
}

run_all-Accounts_example :
    AllAccount
      (a_check ∷ record a_check { type = "smtp" } ∷ [])
      (run_all a_registry (a_check ∷ record a_check { type = "smtp" } ∷ []) 0).0
run_all-Accounts_example =
    run_all-Accounts a_registry (a_check ∷ record a_check { type = "smtp" } ∷ []) 0
