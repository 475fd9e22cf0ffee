-- ===== src/Notify/Story.antt =====
-- internal/notify/story.go: whether a finished drill is news.
pub mod History
use Prim.Native.String.{◌++◌}
use restorelab.Prelude.{Bool, true, false, not, ◌&&◌, String, Option, none, some, if◌then◌else◌}
use restorelab.Prelude.Int.{ltb_ℤ}
use restorelab.Core.Proof.{ProofLevel, rank, recorded, level_text}
use restorelab.Core.Run.{RunState, RunResult, terminal}

-- A result of `none` is the empty string of a run without a verdict.
pub record Story : Type 0 where
  pub result : Option RunResult
  pub proof_level : ProofLevel

pub data Kind : Type 0 where
  first_verdict verdict_changed proof_dropped became_unevaluable : Kind
  became_evaluable_again value_collapsed : Kind

pub record Transition : Type 0 where
  pub kind : Kind
  pub current : Story
  pub previous : Option Story
  pub headline : String

abbrev pub result_text : Option RunResult → String
result_text none = ""
result_text (some RunResult.success) = "SUCCESS"
result_text (some RunResult.degraded) = "DEGRADED"
result_text (some RunResult.failed) = "FAILED"

-- `current.Result == previous.Result`
abbrev pub same_result : Option RunResult → Option RunResult → Bool
same_result none none = true
same_result (some RunResult.success) (some RunResult.success) = true
same_result (some RunResult.degraded) (some RunResult.degraded) = true
same_result (some RunResult.failed) (some RunResult.failed) = true
same_result _ _ = false

abbrev pub is_cancelled : RunState → Bool
is_cancelled RunState.cancelled = true
is_cancelled _ = false

abbrev pub is_inconclusive : RunState → Bool
is_inconclusive RunState.inconclusive = true
is_inconclusive _ = false

abbrev pub say : Kind → Story → Option Story → String → Option Transition
say kind current previous headline =
    some (record { kind = kind; current = current; previous = previous; headline = headline })

-- The branch of an inconclusive run that comes behind one that was evaluated.
abbrev pub decide_unevaluable : Story → Option Story → Option Transition
decide_unevaluable current none =
    say Kind.became_unevaluable current none "first drill could not be evaluated"
decide_unevaluable current (some previous) =
    say Kind.became_unevaluable current (some previous)
      ("no longer evaluable, was " ++ result_text previous.result)

-- Both ends of a comparison must have been written down.
unfoldable pub proof_fell : Story → Story → Bool
proof_fell current previous =
    recorded current.proof_level
    && recorded previous.proof_level
    && ltb_ℤ (rank current.proof_level) (rank previous.proof_level)

abbrev pub decide_graded : Story → Option Story → Bool → Option Transition
decide_graded current none previous_unevaluable =
    say Kind.first_verdict current none ("first verdict: " ++ result_text current.result)
decide_graded current (some previous) previous_unevaluable =
    if not (same_result current.result previous.result)
    then say Kind.verdict_changed current (some previous)
        (result_text current.result ++ ", was " ++ result_text previous.result)
    else if previous_unevaluable
    then say Kind.became_evaluable_again current (some previous)
        ("evaluable again: " ++ result_text current.result)
    else if proof_fell current previous
    then say Kind.proof_dropped current (some previous) (
        "proof dropped from "
        ++ level_text previous.proof_level
        ++ " to "
        ++ level_text current.proof_level)
    else none

-- `Decide`; `none` is the second result false.
unfoldable pub decide : RunState → Story → Option Story → Bool → Option Transition
decide state current previous previous_unevaluable =
    if not (terminal state)
    then none
    else if is_cancelled state
    then none
    else if is_inconclusive state
    then (if previous_unevaluable then none else decide_unevaluable current previous)
    else decide_graded current previous previous_unevaluable
