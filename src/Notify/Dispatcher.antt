-- ===== src/Notify/Dispatcher.antt =====
-- internal/notify/dispatcher.go: one pass of the dispatcher, which claims each run that nobody was
-- told about, queues what it is worth saying, and posts the messages whose time has come.
use Prim.Native.String.{◌++◌}
use restorelab.Prelude.{
  ℕ, ◌-◌, Bool, true, false, not, ◌&&◌, ◌||◌, String, ◌⊎◌, Option, none, some, is_some, map_option,
  List, [], ◌∷◌, ltb, ◌==◌, str_eq, if◌then◌else◌,
}
use restorelab.Core.Float.{Float64}
use restorelab.Store.Row.{Row, or_empty}
use restorelab.Store.Deliveries.{
  claim_run_for_notify, ended_at, unnotified_runs, previous_story, DeliveryState, Delivery,
  create_delivery,
}
use restorelab.Notify.Story.{Story, Kind, Transition, decide}
use restorelab.Notify.Collapse.{Values, values_by_name, zeroed, no_verdict, decide_collapse}
use restorelab.Notify.Deliver.{Cause, Answer}

-- `config.Notification`
pub record Notification : Type 0 where
  pub id : String
  pub kind : String
  pub url : String
  pub enabled : Option Bool

-- `On`
abbrev pub is_on : Notification → Bool
is_on n = elim n.enabled [ none ↦ true | some b ↦ b ]

pub record Message : Type 0 where
  pub workload : String
  pub workload_id : String
  pub plan_name : String
  pub run_id : String
  pub link : String
  pub at : ℕ
  pub transition : Transition
  pub rto_ms : ℕ

-- What surrounds the dispatcher, each acting on a world of its own: the clock, the context and the
-- configuration, the renderers and the channels. `fails` says whether the next statement of the
-- database does, and a `max_age` of `none` is a negative one.
pub record Env : Type 1 where
  pub World : Type 0
  pub now : World → ℕ × World
  pub new_id : World → String × World
  pub ended : World → Option Cause
  pub fails : World → Bool × World
  pub configured : World → List Notification × World
  pub render : String → Message → Option String
  pub unseal : Notification → String ⊎ String
  pub post : String → String → World → Answer × World
  pub check_values : String → World → Option (List (ℕ × Values Float64)) × World
  pub format : Float64 → String
  pub replace_all : String → String → String → String
  pub base_url : String
  pub batch : ℕ
  pub max_age : Option ℕ

-- The tables that the dispatcher writes, and the ids of the deliveries that it posted, newest first.
pub record Desk (e : Env) : Type 0 where
  pub world : e.World
  pub runs : List Row
  pub deliveries : List Delivery
  pub posted : List String

abbrev pub kind_text : Kind → String
kind_text Kind.first_verdict = "first_verdict"
kind_text Kind.verdict_changed = "verdict_changed"
kind_text Kind.proof_dropped = "proof_dropped"
kind_text Kind.became_unevaluable = "became_unevaluable"
kind_text Kind.became_evaluable_again = "became_evaluable_again"
kind_text Kind.value_collapsed = "value_collapsed"

-- `ChannelFor`
abbrev is_known : String → Bool
is_known kind = str_eq kind "discord" || str_eq kind "slack" || str_eq kind "webhook"

-- `resolve`, without its warnings.
unfoldable pub resolve : List Notification → List Notification
resolve [] = []
resolve (n ∷ ns) = let rest = resolve ns in if is_on n && is_known n.kind then n ∷ rest else rest

abbrev known_values : Option (List (ℕ × Values Float64)) → Values Float64
known_values none = []
known_values (some by_check) = values_by_name by_check

abbrev pub story_of : Row → Story
story_of r = record { result = r.result; proof_level = r.proof_level }

abbrev link : String → String → String
link base_url run_id = if str_eq base_url "" then "" else base_url ++ "/runs/" ++ run_id

-- `message`
unfoldable pub message : String → Row → Transition → Message
message base_url run t = record {
  workload =
      if str_eq (or_empty run.source_name) ""
      then run.source_workload_id
      else or_empty run.source_name;
  workload_id = run.source_workload_id;
  plan_name = run.plan_name;
  run_id = run.id;
  link = link base_url run.id;
  at = ended_at run;
  transition = t;
  rto_ms = run.rto_ms;
}

abbrev pub first_delivery : Row → Message → Notification → String → ℕ → String → Delivery
first_delivery run msg ch body now id = record {
  id = id;
  run_id = run.id;
  channel_id = ch.id;
  kind = kind_text msg.transition.kind;
  state = DeliveryState.pending;
  attempts = 0;
  next_at = some now;
  status = 0;
  err = "";
  payload = body;
  created_at = now;
  sent_at = none;
}

module _ {e : Env} where
  unfoldable pub read_clock : Desk e → ℕ × Desk e
  read_clock d = let (at, w) = e.now d.world in (at, record d { world = w })

  unfoldable pub statement_fails : Desk e → Bool × Desk e
  statement_fails d = let (bad, w) = e.fails d.world in (bad, record d { world = w })

  abbrev pub keep_claim : Bool × List Row → Desk e → Bool × Desk e
  keep_claim c d = (c.0, record d { runs = c.1 })

  -- The claim of `consider`.
  unfoldable pub claim : Row → Desk e → Bool × Desk e
  claim run d =
      let (at, d1) = read_clock d in
      let (bad, d2) = statement_fails d1 in
      if bad then (false, d2) else keep_claim (claim_run_for_notify run.id at d2.runs) d2

  abbrev pub past_age : ℕ → ℕ → ℕ × Desk e → Bool × Desk e
  past_age age at c = (ltb age (c.0 - at), c.1)

  abbrev pub older_than : Row → Option ℕ → Desk e → Bool × Desk e
  older_than run none d = (false, d)
  older_than run (some age) d =
      if ended_at run == 0 then (true, d) else past_age age (ended_at run) (read_clock d)

  -- `tooOld`
  unfoldable pub too_old : Row → Desk e → Bool × Desk e
  too_old run d = older_than run e.max_age d

  unfoldable pub measured : String → Desk e → Values Float64 × Desk e
  measured run_id d =
      let (read, w) = e.check_values run_id d.world in (known_values read, record d { world = w })

  abbrev pub compare_values :
      Row → Story → Option Story → Row → Values Float64 × Desk e → Option Transition × Desk e
  compare_values run current previous before (values, d) =
      if not (zeroed values)
      then (none, d)
      else let (was, d') = measured before.id d in
        (decide_collapse e.format run.state current previous values was, d')

  -- `considerValues`
  unfoldable pub consider_values :
      Row → Story → Option Story → Option Row → Desk e → Option Transition × Desk e
  consider_values run current previous none d = (none, d)
  consider_values run current previous (some before) d =
      if no_verdict run.result
      then (none, d)
      else compare_values run current previous before (measured run.id d)

  abbrev pub or_values :
      Row
      → Story
      → Option Story
      → Option Row
      → Option Transition
      → Desk e
      → Option Transition × Desk e
  or_values run current previous before (some t) d = (some t, d)
  or_values run current previous before none d = consider_values run current previous before d

  -- What there is to say about a run, for its story before.
  unfoldable pub judge : Row → Option Row × Bool → Desk e → Option Transition × Desk e
  judge run (before, unevaluable) d =
      let previous = map_option story_of before in
      or_values run (story_of run) previous before
        (decide run.state (story_of run) previous unevaluable) d

  unfoldable pub record_message : Row → Message → Notification → String → Desk e → Desk e
  record_message run msg ch body d =
      let (now, d1) = read_clock d in
      let (id, w) = e.new_id d1.world in
      let (bad, d2) = statement_fails (record d1 { world = w }) in
      if bad then d2 else record d2 {
        deliveries = (create_delivery (first_delivery run msg ch body now id) d2.deliveries).1;
      }

  abbrev pub if_rendered : Row → Message → Notification → Option String → Desk e → Desk e
  if_rendered run msg ch none d = d
  if_rendered run msg ch (some body) d = record_message run msg ch body d

  -- `queue`
  unfoldable pub queue : Row → Message → Notification → Desk e → Desk e
  queue run msg ch d = if_rendered run msg ch (e.render ch.kind msg) d

  unfoldable pub queue_all : Row → Message → List Notification → Desk e → Desk e
  queue_all run msg [] d = d
  queue_all run msg (ch ∷ chs) d =
      let rest = queue_all run msg chs (queue run msg ch d) in
      if is_some (e.ended d.world) then d else rest

  abbrev pub announce : Row → List Notification → Option Transition × Desk e → Desk e
  announce run chs (none, d) = d
  announce run chs (some t, d) = queue_all run (message e.base_url run t) chs d

  -- A run that was claimed and is not too old.
  unfoldable pub tell : Row → List Notification → Desk e → Desk e
  tell run chs d =
      let (bad, d1) = statement_fails d in
      if bad
      then d1
      else announce run chs
          (judge run (previous_story run.source_workload_id run.started_at run.id d1.runs) d1)

  abbrev pub unless_old : Row → List Notification → Bool × Desk e → Desk e
  unless_old run chs (old, d) = if old then d else tell run chs d

  abbrev pub if_won : Row → List Notification → Bool × Desk e → Desk e
  if_won run chs (won, d) = if won then unless_old run chs (too_old run d) else d

  unfoldable pub consider : Row → List Notification → Desk e → Desk e
  consider run chs d = if_won run chs (claim run d)

  unfoldable pub consider_all : List Row → List Notification → Desk e → Desk e
  consider_all [] chs d = d
  consider_all (run ∷ rest) chs d =
      let later = consider_all rest chs (consider run chs d) in
      if is_some (e.ended d.world) then d else later

  -- `decide` of the dispatcher
  unfoldable pub decide_pass : List Notification → Desk e → Desk e
  decide_pass chs d =
      let (bad, d1) = statement_fails d in
      if bad then d1 else consider_all (unnotified_runs e.batch d1.runs) chs d1
