-- ===== src/Report/Confidence.antt =====
-- internal/report/confidence.go: how far a workload's recovery can be trusted.
pub mod Bounds
pub mod Verdicts
use restorelab.Prelude.{
  ℕ, zero, suc, ◌+◌, ◌-◌, Bool, true, false, not, ◌&&◌, Option, none, some, List, [], ◌∷◌, ◌++◌,
  ltb, leb, ◌==◌, if◌then◌else◌,
}
use restorelab.Prelude.Int.{ℤ, pos, negsuc, ltb_ℤ}
use restorelab.Core.Float.{Float64}
use restorelab.Core.Proof.{
  ProofLevel, proof_none, proof_boot, proof_service, proof_data, proof_unknown, recorded,
}
use restorelab.Core.Run.{RunState, RunResult, RecoveryRun, rto_exceeded}

-- A run that is `none` is a nil pointer, and an instant of 0 the zero time.
pub record ConfidenceInput : Type 0 where
  pub last_run : Option RecoveryRun
  pub history : List (Option RecoveryRun)
  pub latest_backup_at : ℕ
  pub now : ℕ

pub record ConfidenceWeights : Type 0 where
  pub age_grace_days : Float64
  pub age_per_day_penalty : Float64
  pub age_max_penalty : ℤ
  pub no_success_penalty : ℤ
  pub last_run_failed_penalty : ℤ
  pub last_run_degraded_penalty : ℤ
  pub rto_exceeded_penalty : ℤ
  pub cleanup_failed_penalty : ℤ
  pub no_backup_penalty : ℤ
  pub backup_stale_after : ℕ
  pub backup_stale_penalty : ℤ
  pub failure_rate_max_penalty : ℤ
  pub proof_none_cap : ℤ
  pub proof_boot_cap : ℤ
  pub proof_service_cap : ℤ

-- The floating-point arithmetic: the rounded penalty for the time between the two instants beyond the
-- grace, `none` within it; the rounded share of failures of a penalty; and what `time.Now` reads.
pub record Machine : Type 0 where
  pub age_penalty : Float64 → Float64 → ℕ → ℕ → Option ℤ
  pub share : ℕ → ℕ → ℤ → ℤ
  pub clock : ℕ

-- What a reason says, without the figures of its text.
pub data Reason : Type 0 where
  never_tested tested_ago no_success last_failed last_degraded rto_missed : Reason
  not_cleaned_up no_backup stale_backup failures : Reason
  capped : ProofLevel → Reason

pub record Confidence : Type 0 where
  pub score : ℤ
  pub reasons : List Reason
  pub tested : Bool
  pub proof : ProofLevel

-- `ProofCap`
unfoldable pub proof_cap : ConfidenceWeights → ProofLevel → ℤ
proof_cap w proof_none = w.proof_none_cap
proof_cap w proof_boot = w.proof_boot_cap
proof_cap w proof_service = w.proof_service_cap
proof_cap w _ = pos 0

-- `score -= penalty`, for a penalty above zero.
abbrev pub minus : ℤ → ℕ → ℤ
minus (pos n) m = if leb m n then pos (n - m) else negsuc (m - n - 1)
minus (negsuc n) m = negsuc (n + m)

abbrev pub Tally : Type 0
Tally = ℤ × List Reason

abbrev pub charge : ℤ → Reason → Tally → Tally
charge (negsuc n) reason t = t
charge (pos zero) reason t = t
charge (pos (suc n)) reason (score, reasons) = (minus score (suc n), reasons ++ reason ∷ [])

abbrev pub is_success : Option RunResult → Bool
is_success (some RunResult.success) = true
is_success _ = false

abbrev pub succeeded : Option RecoveryRun → Bool
succeeded none = false
succeeded (some r) = is_success r.result

unfoldable pub first_success : List (Option RecoveryRun) → Option RecoveryRun
first_success [] = none
first_success (r ∷ rs) = let rest = first_success rs in if succeeded r then r else rest

-- `mostRecentSuccess`
unfoldable pub most_recent_success : ConfidenceInput → Option RecoveryRun
most_recent_success input = first_success (input.last_run ∷ input.history)

abbrev pub proves : Option RunResult → ProofLevel → Option ProofLevel
proves none level = none
proves (some _) level = if recorded level then some level else none

abbrev pub level_of_run : Option RecoveryRun → Option ProofLevel
level_of_run none = none
level_of_run (some r) = proves r.result r.proof_level

abbrev pub or_level : Option ProofLevel → ProofLevel → ProofLevel
or_level none later = later
or_level (some level) later = level

unfoldable pub first_level : List (Option RecoveryRun) → ProofLevel
first_level [] = proof_unknown
first_level (r ∷ rs) = or_level (level_of_run r) (first_level rs)

-- `provenLevel`
unfoldable pub proven_level_of : ConfidenceInput → ProofLevel
proven_level_of input = first_level (input.last_run ∷ input.history)

abbrev pub at_most_ℤ : ℤ → ℤ → ℤ
at_most_ℤ bound z = if ltb_ℤ bound z then bound else z

abbrev pub charge_age : ConfidenceWeights → Option ℤ → Tally → Tally
charge_age w none t = t
charge_age w (some penalty) t = charge (at_most_ℤ w.age_max_penalty penalty) Reason.tested_ago t

unfoldable pub charge_success : Machine → ConfidenceWeights → ℕ → Option RecoveryRun → Tally → Tally
charge_success m w now none t = charge w.no_success_penalty Reason.no_success t
charge_success m w now (some r) t =
    charge_age w (m.age_penalty w.age_grace_days w.age_per_day_penalty now r.completed_at) t

unfoldable pub charge_outcome : ConfidenceWeights → Option RunResult → Tally → Tally
charge_outcome w (some RunResult.failed) t = charge w.last_run_failed_penalty Reason.last_failed t
charge_outcome w (some RunResult.degraded) t =
    charge w.last_run_degraded_penalty Reason.last_degraded t
charge_outcome w _ t = t

abbrev pub has_verdict : Option RunResult → Bool
has_verdict none = false
has_verdict (some _) = true

unfoldable pub charge_rto : ConfidenceWeights → RecoveryRun → Tally → Tally
charge_rto w r t =
    if has_verdict r.result && rto_exceeded r
    then charge w.rto_exceeded_penalty Reason.rto_missed t
    else t

unfoldable pub charge_cleanup : ConfidenceWeights → RunState → Tally → Tally
charge_cleanup w RunState.cleanup_failed t = charge w.cleanup_failed_penalty Reason.not_cleaned_up t
charge_cleanup w _ t = t

unfoldable pub charge_backup : ConfidenceWeights → ℕ → ℕ → Tally → Tally
charge_backup w now latest t =
    if latest == 0
    then charge w.no_backup_penalty Reason.no_backup t
    else if ltb w.backup_stale_after (now - latest)
    then charge w.backup_stale_penalty Reason.stale_backup t
    else t

-- The verdicts of the history, and those that are not a success.
abbrev pub counts : Option RecoveryRun → Bool
counts none = false
counts (some r) = has_verdict r.result

unfoldable pub counted : List (Option RecoveryRun) → ℕ
counted [] = 0
counted (r ∷ rs) = let rest = counted rs in if counts r then suc rest else rest

unfoldable pub failed : List (Option RecoveryRun) → ℕ
failed [] = 0
failed (r ∷ rs) = let rest = failed rs in if counts r && not (succeeded r) then suc rest else rest

unfoldable pub charge_failures :
    Machine → ConfidenceWeights → List (Option RecoveryRun) → Tally → Tally
charge_failures m w rs t =
    if counted rs == 0
    then t
    else charge (m.share (failed rs) (counted rs) w.failure_rate_max_penalty) Reason.failures t

-- The ceiling, and then the range.
unfoldable pub cap : ConfidenceWeights → ProofLevel → Tally → Tally
cap w proof (score, reasons) =
    if ltb_ℤ (pos 0) (proof_cap w proof) && ltb_ℤ (proof_cap w proof) score
    then (proof_cap w proof, reasons ++ capped proof ∷ [])
    else (score, reasons)

unfoldable pub clamp : ℤ → ℤ
clamp (negsuc n) = pos 0
clamp (pos n) = if ltb 100 n then pos 100 else pos n

unfoldable pub grade : Machine → ConfidenceInput → ConfidenceWeights → RecoveryRun → Tally
grade m input w last =
    let now = if input.now == 0 then m.clock else input.now in
    charge_failures m w input.history (
      charge_backup w now input.latest_backup_at (
        charge_cleanup w last.state (
          charge_rto w last (
            charge_outcome w last.result
              (charge_success m w now (most_recent_success input) (pos 100, []))))))

abbrev pub conclude : ProofLevel → Tally → Confidence
conclude proof (score, reasons) = record {
  score = clamp score;
  reasons = reasons;
  tested = true;
  proof = proof;
}

abbrev pub score_last :
    Machine → ConfidenceInput → ConfidenceWeights → Option RecoveryRun → Confidence
score_last m input w none = record {
  score = pos 0;
  reasons = Reason.never_tested ∷ [];
  tested = false;
  proof = proof_unknown;
}
score_last m input w (some last) =
    conclude (proven_level_of input) (cap w (proven_level_of input) (grade m input w last))

-- `Score`
unfoldable pub score : Machine → ConfidenceInput → ConfidenceWeights → Confidence
score m input w = score_last m input w input.last_run
