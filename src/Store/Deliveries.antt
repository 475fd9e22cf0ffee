-- ===== src/Store/Deliveries.antt =====
-- internal/store/notify.go: which runs have been considered, what a workload proved before, and the
-- table `notification_deliveries`.
use restorelab.Prelude.{
  ℕ, Bool, true, false, not, ◌&&◌, ◌||◌, String, Option, none, some, List, [], ◌∷◌, ◌++◌, ltb, ◌==◌,
  str_eq, if◌then◌else◌,
}
use restorelab.Core.Run.{RunState, RunResult}
use restorelab.Store.Row.{Row, is_null, in_terminal_states}
use restorelab.Store.Queue.{has_id}
use restorelab.Store.Table.{
  update_where, count_where, select_where, any_where, least, sort_by, earlier, text_before, limited,
}

abbrev pub unnotified : String → Row → Bool
unnotified id r = has_id id r && is_null r.notified_at

abbrev pub mark_notified : ℕ → Row → Row
mark_notified at r = record r { notified_at = some at }

-- `ClaimRunForNotify`
unfoldable pub claim_run_for_notify : String → ℕ → List Row → Bool × List Row
claim_run_for_notify id at runs =
    (count_where (unnotified id) runs == 1, update_where (unnotified id) (mark_notified at) runs)

-- `COALESCE(completed_at, started_at)`
abbrev pub ended_at : Row → ℕ
ended_at r = elim r.completed_at [ none ↦ r.started_at | some at ↦ at ]

abbrev unnotified_before : Row → Row → Bool
unnotified_before x y =
    ltb (ended_at x) (ended_at y) || (ended_at x == ended_at y && text_before x.id y.id)

abbrev default_list_limit : ℕ
default_list_limit = 50

abbrev or_limit : ℕ → ℕ
or_limit limit = if limit == 0 then default_list_limit else limit

-- `UnnotifiedRuns`
unfoldable pub unnotified_runs : ℕ → List Row → List Row
unnotified_runs limit runs = limited (or_limit limit) (
    sort_by unnotified_before
      (select_where (λ r. is_null r.notified_at && in_terminal_states r.state) runs))

-- The runs of a workload that started before a position.
abbrev is_earlier : String → ℕ → String → Row → Bool
is_earlier workload at id r =
    str_eq r.source_workload_id workload
    && (ltb r.started_at at || (r.started_at == at && text_before r.id id))

-- `ORDER BY started_at DESC, id DESC`
abbrev pub newer : Row → Row → Bool
newer x y = ltb y.started_at x.started_at || (x.started_at == y.started_at && text_before y.id x.id)

abbrev has_verdict : Option RunResult → Bool
has_verdict none = false
has_verdict (some _) = true

abbrev state_is_inconclusive : Option Row → Bool
state_is_inconclusive none = false
state_is_inconclusive (some r) = elim r.state [ RunState.inconclusive ↦ true | _ ↦ false ]

-- `PreviousStory`
unfoldable pub previous_story : String → ℕ → String → List Row → Option Row × Bool
previous_story workload at id runs = (
  least newer (select_where (λ r. is_earlier workload at id r && has_verdict r.result) runs),
  state_is_inconclusive (least newer (select_where (is_earlier workload at id) runs)),
)

pub data DeliveryState : Type 0 where
  pending sent failed : DeliveryState

-- `next_at` and `sent_at` are `none` for the zero time.
pub record Delivery : Type 0 where
  pub id : String
  pub run_id : String
  pub channel_id : String
  pub kind : String
  pub state : DeliveryState
  pub attempts : ℕ
  pub next_at : Option ℕ
  pub status : ℕ
  pub err : String
  pub payload : String
  pub created_at : ℕ
  pub sent_at : Option ℕ

pub data Creation : Type 0 where
  created duplicate refused : Creation

abbrev pub is_pair : String → String → Delivery → Bool
is_pair run_id channel_id d = str_eq d.run_id run_id && str_eq d.channel_id channel_id

abbrev pub is_delivery : String → Delivery → Bool
is_delivery id d = str_eq d.id id

-- `CreateDelivery`; the primary key refuses an id that is taken.
unfoldable pub create_delivery : Delivery → List Delivery → Creation × List Delivery
create_delivery d ds =
    if any_where (is_pair d.run_id d.channel_id) ds
    then (duplicate, ds)
    else if any_where (is_delivery d.id) ds
    then (refused, ds)
    else (created, ds ++ d ∷ [])

abbrev pub is_pending : DeliveryState → Bool
is_pending DeliveryState.pending = true
is_pending _ = false

-- `next_at IS NULL OR next_at <= ?`
abbrev has_come : ℕ → Option ℕ → Bool
has_come now none = true
has_come now (some at) = not (ltb now at)

abbrev pub is_due : ℕ → Delivery → Bool
is_due now d = is_pending d.state && has_come now d.next_at

abbrev same_instant : Option ℕ → Option ℕ → Bool
same_instant none none = true
same_instant (some a) (some b) = a == b
same_instant _ _ = false

abbrev pub due_before : Delivery → Delivery → Bool
due_before x y =
    earlier x.next_at y.next_at || (same_instant x.next_at y.next_at && text_before x.id y.id)

-- `DueDeliveries`
unfoldable pub due_deliveries : ℕ → ℕ → List Delivery → List Delivery
due_deliveries now limit ds =
    limited (or_limit limit) (sort_by due_before (select_where (is_due now) ds))

abbrev pub outcome_of : Delivery → Delivery → Delivery
outcome_of d stored = record stored {
  state = d.state;
  attempts = d.attempts;
  next_at = d.next_at;
  status = d.status;
  err = d.err;
  sent_at = d.sent_at;
}

-- `SettleDelivery`; false is `ErrNotFound`.
unfoldable pub settle_delivery : Delivery → List Delivery → Bool × List Delivery
settle_delivery d ds = (
  not (count_where (is_delivery d.id) ds == 0),
  update_where (is_delivery d.id) (outcome_of d) ds,
)
