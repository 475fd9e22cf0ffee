-- ===== src/Examples/Notices.antt =====
-- The theorems on notifications, on a history of three drills and a dispatcher with one channel.
use restorelab.Prelude.{ℕ, suc, ◌*◌, ◌≡◌, refl, inr, true, false, none, some, List, [], ◌∷◌, arith}
use restorelab.Prelude.Int.{pos}
use restorelab.Plan.{second}
use restorelab.Core.Float.{finite}
use restorelab.Core.Proof.{proof_data, proof_service, rank, recorded}
use restorelab.Core.Run.{RunState, RunResult}
use restorelab.Store.Table.{any_where, count_where}
use restorelab.Store.Row.{Row}
use restorelab.Store.Queue.{queued_row}
use restorelab.Store.Operations.{apply_all}
use restorelab.Store.Deliveries.{DeliveryState, Delivery, claim_run_for_notify}
use restorelab.Trigger.{queued_run}
use restorelab.Store.Considered.{claim_run_for_notify-once}
use restorelab.Notify.Story.History.{
  Past, HasEnded, Holds, messages, believed, established, success, inconclusive, messages-truth,
}
use restorelab.Notify.Collapse.{Values, value, values_by_name, decide_collapse}
use restorelab.Notify.Collapse.Names.{only, named, readings, values_by_name-only}
use restorelab.Notify.Deliver.{read_answer, response, next_attempt, classify, retry_after, nth}
use restorelab.Notify.Deliver.Backoff.{Bounded, next_attempt-Bounded}
use restorelab.Notify.Dispatcher.{Env, Desk, Notification, consider_values, measured, story_of}
use restorelab.Notify.Shortcut.{consider_values-decide_collapse}
use restorelab.Notify.Attempt.{tick}
use restorelab.Notify.Keeps.Invariant.{IsWellFormed, tick-IsWellFormed}
use restorelab.Notify.Keeps.Final.{Keeps, times_posted, tick-final}
use restorelab.Examples.{a_queue, first_row, meanwhile, no_text}

abbrev good_night : Past
good_night = record {
  state = RunState.success;
  story = record { result = some RunResult.success; proof_level = proof_data };
}

abbrev blind_night : Past
blind_night = record {
  state = RunState.inconclusive;
  story = record { result = none; proof_level = proof_service };
}

abbrev three_nights : List Past
three_nights = blind_night ∷ blind_night ∷ good_night ∷ []

-- A night that proved less than the first one.
abbrev poor_night : Past
poor_night = record {
  state = RunState.success;
  story = record { result = some RunResult.success; proof_level = proof_service };
}

poor_night-HasEnded : HasEnded poor_night
unfolding recorded rank
poor_night-HasEnded = (success RunResult.success, refl)

good_night-HasEnded : HasEnded good_night
unfolding recorded rank
good_night-HasEnded = (success RunResult.success, refl)

blind_night-HasEnded : HasEnded blind_night
unfolding recorded rank
blind_night-HasEnded = (inconclusive, refl)

messages-truth_example :
    Holds
      (believed (messages (poor_night ∷ three_nights)))
      (established (poor_night ∷ three_nights))
messages-truth_example =
    messages-truth (poor_night ∷ three_nights) (
      poor_night-HasEnded,
      (blind_night-HasEnded, (blind_night-HasEnded, (good_night-HasEnded, tt))),
    )

abbrev two_checks : List (ℕ × Values ℕ)
two_checks = (0, ("rows", 7) ∷ ("users", 3) ∷ []) ∷ (1, ("rows", 9) ∷ []) ∷ []

values_by_name-only_example :
    value "users" (values_by_name two_checks) ≡ only (named "users" (readings two_checks))
values_by_name-only_example = values_by_name-only "users" two_checks

asked_again :
    next_attempt 2 (read_answer none (response 429 "slow down" (some (pos 90))))
    ≡ some (90 * second)
unfolding next_attempt read_answer classify nth retry_after
asked_again = refl

next_attempt-Bounded_example : Bounded 2 (90 * second)
next_attempt-Bounded_example =
    next_attempt-Bounded 2 none (response 429 "slow down" (some (pos 90))) (90 * second) asked_again

first_notice : (claim_run_for_notify "run-1" 40 a_queue).0 ≡ true
unfolding claim_run_for_notify count_where queued_row queued_run
first_notice = refl

claim_run_for_notify-once_example :
    (claim_run_for_notify "run-1" 60
      (apply_all no_text meanwhile (claim_run_for_notify "run-1" 40 a_queue).1)).0
    ≡ false
claim_run_for_notify-once_example =
    claim_run_for_notify-once no_text "run-1" 40 a_queue meanwhile 60 first_notice

abbrev a_channel : Notification
a_channel = record { id = "ops"; kind = "slack"; url = "sealed"; enabled = none }

abbrev a_dispatcher : Env
a_dispatcher = record {
  World = ℕ;
  now = λ w. (w, suc w);
  new_id = λ w. ("delivery-2", suc w);
  ended = λ w. none;
  fails = λ w. (false, w);
  configured = λ w. (a_channel ∷ [], w);
  render = λ kind msg. some "body";
  unseal = λ ch. inr "https://chat.example";
  post = λ target body w. (response 200 "ok" none, suc w);
  check_values = λ id w. (some ((0, ("rows", finite (pos 0) 0) ∷ []) ∷ []), w);
  format = λ v. "7";
  replace_all = λ text target other. text;
  base_url = "";
  batch = 50;
  max_age = none;
}

abbrev a_sent_delivery : Delivery
a_sent_delivery = record {
  id = "delivery-1";
  run_id = "run-0";
  channel_id = "ops";
  kind = "first_verdict";
  state = DeliveryState.sent;
  attempts = 1;
  next_at = none;
  status = 200;
  err = "";
  payload = "body";
  created_at = 3;
  sent_at = some 4;
}

abbrev a_finished_row : Row
a_finished_row = record first_row { state = RunState.success; result = some RunResult.success }

abbrev a_desk : Desk a_dispatcher
a_desk = record {
  world = 100;
  runs = a_finished_row ∷ [];
  deliveries = a_sent_delivery ∷ [];
  posted = "delivery-1" ∷ [];
}

a_desk-IsWellFormed : IsWellFormed (a_sent_delivery ∷ [])
unfolding any_where
a_desk-IsWellFormed = record {
  ids = (refl, tt);
  pairs = (refl, tt);
  sound = ((omega arith, omega arith, refl), tt);
}

tick-IsWellFormed_example : IsWellFormed (tick a_desk).deliveries
tick-IsWellFormed_example = tick-IsWellFormed a_dispatcher a_desk a_desk-IsWellFormed

a_desk-Keeps : Keeps a_sent_delivery (a_sent_delivery ∷ [])
unfolding any_where
a_desk-Keeps = record { same = ((λ h. refl), tt); present = refl }

tick-final_example :
    Keeps a_sent_delivery (tick a_desk).deliveries
    × (times_posted "delivery-1" (tick a_desk).posted
        ≡ times_posted "delivery-1" ("delivery-1" ∷ []))
tick-final_example =
    tick-final a_dispatcher a_desk a_sent_delivery a_desk-IsWellFormed a_desk-Keeps (λ h. cc)

consider_values-decide_collapse_example :
    (consider_values a_finished_row (story_of a_finished_row) none none a_desk).0
    ≡ decide_collapse a_dispatcher.format RunState.success
        (story_of a_finished_row)
        none
        (measured a_finished_row.id a_desk).0
        []
consider_values-decide_collapse_example =
    consider_values-decide_collapse a_dispatcher a_finished_row none none a_desk
