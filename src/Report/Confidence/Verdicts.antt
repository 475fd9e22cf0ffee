-- ===== src/Report/Confidence/Verdicts.antt =====
-- Drills without a verdict are no evidence.
use restorelab.Prelude.{
  suc, ◌≡◌, refl, ap, false, not, Option, none, some, List, [], ◌∷◌, Bool-cases, inl, inr,
  if◌then◌else◌,
}
use restorelab.Core.Run.{RecoveryRun, RunResult}
use restorelab.Store.Table.{select_where}
use restorelab.Report.Confidence.{
  ConfidenceInput, ConfidenceWeights, Machine, is_success, has_verdict, proves, succeeded, counts,
  first_success, most_recent_success, level_of_run, first_level, proven_level_of, counted, failed,
  charge_failures, grade, score_last, score,
}

abbrev pub verdicts : List (Option RecoveryRun) → List (Option RecoveryRun)
verdicts rs = select_where counts rs

uncounted-succeeded : (r : Option RecoveryRun) → counts r ≡ false → succeeded r ≡ false
uncounted-succeeded none h = refl
uncounted-succeeded (some r) h = go r.result h
  where
    go : (o : Option RunResult) → has_verdict o ≡ false → is_success o ≡ false
    go none h = refl
    go (some v) h = cc

uncounted-level : (r : Option RecoveryRun) → counts r ≡ false → level_of_run r ≡ none
uncounted-level none h = refl
uncounted-level (some r) h = go r.result h
  where
    go : (o : Option RunResult) → has_verdict o ≡ false → proves o r.proof_level ≡ none
    go none h = refl
    go (some v) h = cc

first_success-verdicts :
    (rs : List (Option RecoveryRun)) → first_success (verdicts rs) ≡ first_success rs
unfolding first_success select_where
first_success-verdicts [] = refl
first_success-verdicts (r ∷ rs) = elim (Bool-cases (counts r)) [
  | inl in_it ↦ rw (in_it, first_success-verdicts rs) refl
  | inr out ↦ rw (out, uncounted-succeeded r out) (first_success-verdicts rs)
]

first_level-verdicts : (rs : List (Option RecoveryRun)) → first_level (verdicts rs) ≡ first_level rs
unfolding first_level select_where
first_level-verdicts [] = refl
first_level-verdicts (r ∷ rs) = elim (Bool-cases (counts r)) [
  | inl in_it ↦ rw (in_it, first_level-verdicts rs) refl
  | inr out ↦ rw (out, uncounted-level r out) (first_level-verdicts rs)
]

counted-verdicts : (rs : List (Option RecoveryRun)) → counted (verdicts rs) ≡ counted rs
unfolding counted select_where
counted-verdicts [] = refl
counted-verdicts (r ∷ rs) = elim (Bool-cases (counts r)) [
  | inl in_it ↦ rw (in_it, in_it) (ap suc (counted-verdicts rs))
  | inr out ↦ rw out (counted-verdicts rs)
]

failed-verdicts : (rs : List (Option RecoveryRun)) → failed (verdicts rs) ≡ failed rs
unfolding failed select_where
failed-verdicts [] = refl
failed-verdicts (r ∷ rs) = elim (Bool-cases (counts r)) [
  | inl in_it ↦
      rw (in_it, in_it) (ap (λ n. if not (succeeded r) then suc n else n) (failed-verdicts rs))
  | inr out ↦ rw out (failed-verdicts rs)
]

-- The runs of the history that reached no verdict change nothing of a score: cancelling a drill, or
-- drilling where nothing can be evaluated, neither lowers nor raises it.
pub score-verdicts :
    (m : Machine) (input : ConfidenceInput) (w : ConfidenceWeights)
    → score m (record input { history = verdicts input.history }) w ≡ score m input w
unfolding score grade charge_failures most_recent_success proven_level_of first_success first_level
score-verdicts m input w = graded input.last_run
  where
    graded :
        (o : Option RecoveryRun)
        → score_last m (record input { history = verdicts input.history }) w o
          ≡ score_last m input w o
    graded none = refl
    graded (some last) =
        rw
          (
            first_success-verdicts input.history,
            first_level-verdicts input.history,
            counted-verdicts input.history,
            failed-verdicts input.history,
          )
          refl
