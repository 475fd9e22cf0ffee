-- ===== src/Notify/Attempt.antt =====
-- internal/notify/dispatcher.go: the pass that posts the messages, and the whole of `Tick`.
use Prim.Native.String.{◌++◌}
use restorelab.Prelude.{
  ℕ, suc, ◌+◌, String, ◌⊎◌, inl, inr, Option, none, some, is_some, List, [], ◌∷◌, str_eq,
  if◌then◌else◌,
}
use restorelab.Store.Deliveries.{DeliveryState, Delivery, due_deliveries, settle_delivery}
use restorelab.Notify.Deliver.{PostError, Result, read_answer, next_attempt, abandoned}
use restorelab.Notify.Dispatcher.{
  Notification, Env, Desk, resolve, read_clock, statement_fails, decide_pass,
}

-- `channelFor`
unfoldable pub channel_for : List Notification → String → Option Notification
channel_for [] id = none
channel_for (ch ∷ chs) id =
    let rest = channel_for chs id in if str_eq ch.id id then some ch else rest

-- `redact`
abbrev pub redact : (String → String → String → String) → String → String → String → String
redact replace_all text target channel_id =
    if str_eq target ""
    then text
    else replace_all text target ("<url of channel " ++ channel_id ++ ">")

-- A row with the attempt counted and the status of the answer.
abbrev pub counted : Delivery → Result → Delivery
counted row r = record row { attempts = suc row.attempts; status = r.status }

module _ {e : Env} where
  -- `settle`
  unfoldable pub settle : Delivery → Desk e → Desk e
  settle row d =
      let (bad, d1) = statement_fails d in
      if bad then d1 else record d1 { deliveries = (settle_delivery row d1.deliveries).1 }

  -- `fail`
  unfoldable pub fail : Delivery → String → Desk e → Desk e
  fail row reason d =
      settle
        (record row {
          attempts = suc row.attempts;
          state = DeliveryState.failed;
          status = 0;
          err = reason;
          next_at = none;
        })
        d

  abbrev pub settle_sent : Delivery → ℕ × Desk e → Desk e
  settle_sent row (now, d) =
      settle
        (record row { state = DeliveryState.sent; err = ""; sent_at = some now; next_at = none }) d

  abbrev pub settle_refused : Delivery → String → Option ℕ → Desk e → Desk e
  settle_refused row reason none d =
      settle (record row { state = DeliveryState.failed; err = reason; next_at = none }) d
  settle_refused row reason (some wait) d =
      let (now, d1) = read_clock d in
      settle
        (record row { state = DeliveryState.pending; err = reason; next_at = some (now + wait) }) d1

  abbrev pub settle_result : Delivery → String → Result → Option PostError → Desk e → Desk e
  settle_result row target r none d = settle_sent (counted row r) (read_clock d)
  settle_result row target r (some x) d =
      settle_refused (counted row r) (redact e.replace_all x.text target row.channel_id)
        (next_attempt (suc row.attempts) r) d

  -- What becomes of a row once its message was posted.
  unfoldable pub record_result : Delivery → String → Result → Desk e → Desk e
  record_result row target r d =
      if abandoned (e.ended d.world) r then d else settle_result row target r r.err d

  unfoldable pub post_row : Delivery → String → Desk e → Desk e
  post_row row target d =
      let (answer, w) = e.post target row.payload d.world in
      record_result row target (read_answer (e.ended w) answer)
        (record d { world = w; posted = row.id ∷ d.posted })

  abbrev pub post_to : Delivery → String ⊎ String → Desk e → Desk e
  post_to row (inl x) d = fail row x d
  post_to row (inr target) d = post_row row target d

  abbrev pub attempt_at : Delivery → Option Notification → Desk e → Desk e
  attempt_at row none d =
      fail row ("channel \"" ++ row.channel_id ++ "\" is no longer configured") d
  attempt_at row (some ch) d = post_to row (e.unseal ch) d

  unfoldable pub attempt : List Notification → Delivery → Desk e → Desk e
  attempt chs row d = attempt_at row (channel_for chs row.channel_id) d

  unfoldable pub attempt_all : List Notification → List Delivery → Desk e → Desk e
  attempt_all chs [] d = d
  attempt_all chs (row ∷ rows) d =
      let rest = attempt_all chs rows (attempt chs row d) in
      if is_some (e.ended d.world) then d else rest

  -- `deliver`
  unfoldable pub deliver_pass : List Notification → Desk e → Desk e
  deliver_pass chs d =
      let (now, d1) = read_clock d in
      let (bad, d2) = statement_fails d1 in
      if bad then d2 else attempt_all chs (due_deliveries now e.batch d2.deliveries) d2

  -- `Tick`
  unfoldable pub tick : Desk e → Desk e
  tick d =
      let (channels, w) = e.configured d.world in
      deliver_pass (resolve channels) (decide_pass (resolve channels) (record d { world = w }))
