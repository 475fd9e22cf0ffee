-- ===== src/Checks/Registry.antt =====
-- internal/checks/registry.go: `RunOne` and `RunAll`. A check type and the context act on a world.
pub mod Accounts
use restorelab.Prelude.{
  ℕ, zero, suc, Bool, true, false, not, ◌&&◌, ◌||◌, String, Option, none, some, List, [], ◌∷◌, ◌==◌,
  str_eq, if◌then◌else◌,
}
use restorelab.Core.Float.{Float64}
use restorelab.Core.Check.{
  CheckConfig, CheckResult, CheckStatus, check_fail, check_error, check_skipped, is_pass,
}

-- What an attempt of a check ends in.
pub data Attempted : Type 0 where
  judged : CheckStatus → List (String × Float64) → Attempted
  panicked : Attempted

-- The registered types, an attempt within its timeout, the end of the context, and the pause before
-- another attempt, which the end of the context interrupts.
pub record Registry : Type 1 where
  pub World : Type 0
  pub is_registered : String → Bool
  pub attempt : CheckConfig → World → Attempted × World
  pub ended : World → Bool
  pub pause : ℕ → World → Bool × World

-- The status and the values of a result.
pub record Verdict : Type 0 where
  pub status : CheckStatus
  pub captured : List (String × Float64)

abbrev pub cancelled : Verdict
cancelled = record { status = check_error; captured = [] }

-- `runAttempt`
abbrev pub verdict_of : Attempted → Verdict
verdict_of (judged status captured) = record { status = status; captured = captured }
verdict_of panicked = record { status = check_error; captured = [] }

abbrev pub display_name : CheckConfig → String
display_name cfg = if str_eq cfg.name "" then cfg.type else cfg.name

unfoldable pub has_value : String → List (String × Float64) → Bool
has_value name [] = false
has_value name (e ∷ m) = str_eq e.0 name || has_value name m

-- `unreadCapture`
unfoldable pub unread_capture : CheckConfig → Verdict → Bool
unread_capture cfg v =
    not (str_eq cfg.capture "") && (is_pass v.status && not (has_value cfg.capture v.captured))

module _ (r : Registry) (cfg : CheckConfig) where
  abbrev pub before_next : r.World → Bool × r.World
  before_next w = if cfg.retry_interval == 0 then (false, w) else r.pause cfg.retry_interval w

  -- The loop: `made` attempts are made, one is due, and `more` can follow it.
  unfoldable pub attempt_loop : ℕ → ℕ → r.World → Verdict × ℕ × r.World
  attempt_loop zero made w =
      if r.ended w
      then (cancelled, suc made, w)
      else let (a, w') = r.attempt cfg w in (verdict_of a, suc made, w')
  attempt_loop (suc more) made w =
      let (a, w') = r.attempt cfg w in
      let (interrupted, w'') = before_next w' in
      let again = attempt_loop more (suc made) w'' in
      if r.ended w
      then (cancelled, suc made, w)
      else if is_pass (verdict_of a).status
      then (verdict_of a, suc made, w')
      else if interrupted
      then (cancelled, suc made, w'')
      else again

  abbrev pub with_labels : Verdict → ℕ → CheckResult
  with_labels v made = record {
    name = display_name cfg;
    type = cfg.type;
    status = if unread_capture cfg v then check_fail else v.status;
    attempts = made;
    captured = v.captured;
  }

  abbrev pub unknown_type : CheckResult
  unknown_type = record {
    name = display_name cfg;
    type = cfg.type;
    status = check_error;
    attempts = 0;
    captured = [];
  }

  abbrev pub skipped : CheckResult
  skipped = record {
    name = display_name cfg;
    type = cfg.type;
    status = check_skipped;
    attempts = 0;
    captured = [];
  }

  abbrev pub labelled : Verdict × ℕ × r.World → CheckResult × r.World
  labelled (v, made, w) = (with_labels v made, w)

  -- `RunOne`: `cfg.Retries + 1` attempts at most.
  unfoldable pub run_one : r.World → CheckResult × r.World
  run_one w =
      if not (r.is_registered cfg.type)
      then (unknown_type, w)
      else labelled (attempt_loop cfg.retries 0 w)

-- `RunAll`
unfoldable pub run_all : (r : Registry) → List CheckConfig → r.World → List CheckResult × r.World
run_all r [] w = ([], w)
run_all r (cfg ∷ cfgs) w =
    let (result, w') = if r.ended w then (skipped r cfg, w) else run_one r cfg w in
    let (results, w'') = run_all r cfgs w' in (result ∷ results, w'')
