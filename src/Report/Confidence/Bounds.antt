-- ===== src/Report/Confidence/Bounds.antt =====
-- The range of a score, and its ceiling.
use restorelab.Prelude.{
  ◌≡◌, refl, sym, subst, true, false, List, ◌&&◌, Option, none, some, [], ◌∷◌, ◌++◌, ltb, arith,
  Bool-cases, inl, inr, if◌then◌else◌,
}
use restorelab.Prelude.Int.{ℤ, pos, negsuc, ◌≤ℤ◌, ◌<ℤ◌, ltb_ℤ}
use restorelab.Core.Proof.{
  ProofLevel, proof_none, proof_boot, proof_service, proof_unknown, recorded,
}
use restorelab.Core.Run.{RunResult, RecoveryRun}
use restorelab.Report.Confidence.{
  ConfidenceInput, ConfidenceWeights, Machine, Tally, capped, proof_cap, proven_level_of,
  first_level, or_level, proves, cap, clamp, grade, score_last, score,
}

-- What the drills proved: the level of the newest run with a verdict and a recorded level.
pub data HasProven : List (Option RecoveryRun) → ProofLevel → Type 0 where
  untold : HasProven [] proof_unknown
  told :
      (r : RecoveryRun) (v : RunResult) (rs : List (Option RecoveryRun))
      → r.result ≡ some v
      → recorded r.proof_level ≡ true
      → HasProven (some r ∷ rs) r.proof_level
  no_run :
      (rs : List (Option RecoveryRun)) (level : ProofLevel)
      → HasProven rs level
      → HasProven (none ∷ rs) level
  no_verdict :
      (r : RecoveryRun) (rs : List (Option RecoveryRun)) (level : ProofLevel)
      → r.result ≡ none
      → HasProven rs level
      → HasProven (some r ∷ rs) level
  no_level :
      (r : RecoveryRun) (rs : List (Option RecoveryRun)) (level : ProofLevel)
      → recorded r.proof_level ≡ false
      → HasProven rs level
      → HasProven (some r ∷ rs) level

-- The ceilings of a score: 100, and the weight of the level that was proven if it is positive.
pub data IsCeiling (w : ConfidenceWeights) : ProofLevel → ℤ → Type 0 where
  full : (level : ProofLevel) → IsCeiling w level (pos 100)
  nothing_proven : pos 0 <ℤ w.proof_none_cap → IsCeiling w proof_none w.proof_none_cap
  boot_proven : pos 0 <ℤ w.proof_boot_cap → IsCeiling w proof_boot w.proof_boot_cap
  service_proven : pos 0 <ℤ w.proof_service_cap → IsCeiling w proof_service w.proof_service_cap

clamp-range : (z : ℤ) → (pos 0 ≤ℤ clamp z) × (clamp z ≤ℤ pos 100)
unfolding clamp
clamp-range (negsuc n) = (omega arith, omega arith)
clamp-range (pos n) = elim (Bool-cases (ltb 100 n)) [
  | inl over ↦ rw over (omega arith, omega arith)
  | inr within ↦ rw within (omega arith, ground (arith, within))
]

clamp-below : (z c : ℤ) → pos 0 <ℤ c → z ≤ℤ c → clamp z ≤ℤ c
unfolding clamp
clamp-below (negsuc n) c h k = omega (arith, h)
clamp-below (pos n) (pos m) h k = elim (Bool-cases (ltb 100 n)) [
  | inl over ↦ rw over (ground (arith, over, k))
  | inr within ↦ rw within (omega (arith, k))
]
clamp-below (pos n) (negsuc m) h k = omega (arith, h)

-- A positive ceiling is kept.
cap-below :
    (w : ConfidenceWeights) (proof : ProofLevel) (t : Tally)
    → pos 0 <ℤ proof_cap w proof
    → (cap w proof t).0 ≤ℤ proof_cap w proof
unfolding cap
cap-below w proof (z, reasons) h = either (proof_cap w proof) z h
  where
    either :
        (c z : ℤ)
        → pos 0 <ℤ c
        → (let o : Tally =
              if ltb_ℤ (pos 0) c && ltb_ℤ c z
              then (c, reasons ++ capped proof ∷ [])
              else (z, reasons) in
            o.0 ≤ℤ c)
    either (negsuc m) z h = absurd (omega (arith, h))
    either (pos m) z h = elim (Bool-cases (ltb_ℤ (pos 0) (pos m))) [
      | inr below ↦ absurd (ground (arith, below, h))
      | inl above ↦ elim (Bool-cases (ltb_ℤ (pos m) z)) [
        | inl over ↦ rw (above, over) (omega arith)
        | inr within ↦ rw (above, within) (ground (arith, within))
      ]
    ]

HasProven-first_level :
    (rs : List (Option RecoveryRun)) (level : ProofLevel)
    → HasProven rs level
    → first_level rs ≡ level
unfolding first_level
HasProven-first_level _ _ untold = refl
HasProven-first_level _ _ (told r v rs h n) = rw (h, n) refl
HasProven-first_level _ _ (no_run rs level k) = HasProven-first_level rs level k
HasProven-first_level _ _ (no_verdict r rs level h k) = rw h (HasProven-first_level rs level k)
HasProven-first_level _ _ (no_level r rs level h k) =
    skip r.result (HasProven-first_level rs level k)
  where
    skip :
        (o : Option RunResult)
        → first_level rs ≡ level
        → or_level (proves o r.proof_level) (first_level rs) ≡ level
    skip none e = e
    skip (some v) e = rw h e

ceiling-kept :
    (w : ConfidenceWeights) (level : ProofLevel) (c : ℤ) (t : Tally)
    → IsCeiling w level c
    → clamp (cap w level t).0 ≤ℤ c
unfolding proof_cap
ceiling-kept w level _ t (full _) = (clamp-range (cap w level t).0).1
ceiling-kept w _ _ t (nothing_proven h) = clamp-below _ _ h (cap-below w proof_none t h)
ceiling-kept w _ _ t (boot_proven h) = clamp-below _ _ h (cap-below w proof_boot t h)
ceiling-kept w _ _ t (service_proven h) = clamp-below _ _ h (cap-below w proof_service t h)

ceiling-positive :
    (w : ConfidenceWeights) (level : ProofLevel) (c : ℤ) → IsCeiling w level c → pos 0 ≤ℤ c
ceiling-positive w _ _ (full _) = omega arith
ceiling-positive w _ _ (nothing_proven h) = omega (arith, h)
ceiling-positive w _ _ (boot_proven h) = omega (arith, h)
ceiling-positive w _ _ (service_proven h) = omega (arith, h)

-- A score is not below 0, not above 100, and not above the weight of the level that the drills
-- proved, if it is positive: the level of the newest run, the last one before the history, that has a
-- verdict and a recorded level. It holds whatever the weights, the other input and the floating-point
-- arithmetic are.
pub score-InRange :
    (m : Machine) (input : ConfidenceInput) (w : ConfidenceWeights) (level : ProofLevel) (c : ℤ)
    → HasProven (input.last_run ∷ input.history) level
    → IsCeiling w level c
    → (pos 0 ≤ℤ (score m input w).score) × ((score m input w).score ≤ℤ c)
unfolding score proven_level_of
score-InRange m input w level c proven ceiling = graded input.last_run
  where
    at : proven_level_of input ≡ level
    at = HasProven-first_level _ level proven

    graded :
        (o : Option RecoveryRun)
        → (pos 0 ≤ℤ (score_last m input w o).score) × ((score_last m input w o).score ≤ℤ c)
    graded none = (omega arith, ceiling-positive w level c ceiling)
    graded (some last) =
        let t = grade m input w last in
        (
          (clamp-range (cap w (proven_level_of input) t).0).0,
          subst (λ l. clamp (cap w l t).0 ≤ℤ c) (sym at) (ceiling-kept w level c t ceiling),
        )
