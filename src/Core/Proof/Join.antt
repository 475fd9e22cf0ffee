-- ===== src/Core/Proof/Join.antt =====
-- `Raise` takes the higher of two levels, and `ProvenBy` the highest of those that passed.
use restorelab.Prelude.{◌≡◌, ◌∙◌, sym, ◌⊎◌, inl, inr, refl, true, List, [], ◌∷◌, arith, Bool-cases}
use restorelab.Prelude.Int.{◌≤ℤ◌}
use restorelab.Core.Check.{is_ok}
use restorelab.Core.Proof.{ProofLevel, proof_none, rank, raise}
use restorelab.Core.Proof.ProvenBy.{ProofCheck, learn, proven_from, proven_by}

pub raise-upper_left : (l m : ProofLevel) → rank l ≤ℤ rank (raise l m)
unfolding raise
raise-upper_left l m = ground arith

pub raise-upper_right : (l m : ProofLevel) → rank m ≤ℤ rank (raise l m)
unfolding raise
raise-upper_right l m = ground arith

pub raise_cases : (l m : ProofLevel) → (raise l m ≡ l) ⊎ (raise l m ≡ m)
unfolding raise
raise_cases l m = ground arith

-- Some check of the list passed and claims the level.
pub data Claims (l : ProofLevel) : List ProofCheck → Type 0 where
  here :
      {c : ProofCheck} {cs : List ProofCheck}
      → is_ok c.result ≡ true
      → c.config.proves ≡ l
      → Claims l (c ∷ cs)
  there : {c : ProofCheck} {cs : List ProofCheck} → Claims l cs → Claims l (c ∷ cs)

learn-lower : (l : ProofLevel) (c : ProofCheck) → rank l ≤ℤ rank (learn l c)
unfolding learn
learn-lower l c = elim (Bool-cases (is_ok c.result)) [
  | inl e ↦ rw e (raise-upper_left l c.config.proves)
  | inr e ↦ rw e (omega arith)
]

learn-passed :
    (l : ProofLevel) (c : ProofCheck)
    → is_ok c.result ≡ true
    → rank c.config.proves ≤ℤ rank (learn l c)
unfolding learn
learn-passed l c e = rw e (raise-upper_right l c.config.proves)

learn_cases :
    (l : ProofLevel) (c : ProofCheck)
    → (learn l c ≡ l) ⊎ ((is_ok c.result ≡ true) × (learn l c ≡ c.config.proves))
unfolding learn
learn_cases l c = elim (Bool-cases (is_ok c.result)) [
  | inl e ↦ ground (arith, raise_cases l c.config.proves)
  | inr e ↦ rw e (inl refl)
]

proven_from-lower : (l : ProofLevel) (cs : List ProofCheck) → rank l ≤ℤ rank (proven_from l cs)
unfolding proven_from
proven_from-lower l [] = omega arith
proven_from-lower l (c ∷ cs) = omega (arith, learn-lower l c, proven_from-lower (learn l c) cs)

proven_from-upper :
    (m l : ProofLevel) (cs : List ProofCheck) → Claims m cs → rank m ≤ℤ rank (proven_from l cs)
unfolding proven_from
proven_from-upper m l _ (here {c = c} {cs = cs} p e) =
    rw (← e) (omega (arith, learn-passed l c p, proven_from-lower (learn l c) cs))
proven_from-upper m l _ (there {c = c} {cs = cs} h) = proven_from-upper m (learn l c) cs h

proven_from-attained :
    (l : ProofLevel) (cs : List ProofCheck) → (proven_from l cs ≡ l) ⊎ Claims (proven_from l cs) cs
unfolding proven_from
proven_from-attained l [] = inl refl
proven_from-attained l (c ∷ cs) = elim (proven_from-attained (learn l c) cs) [
  | inr h ↦ inr (there h)
  | inl e ↦ elim (learn_cases l c) [
    | inl same ↦ inl (e ∙ same)
    | inr (passed, up) ↦ inr (here passed (sym (e ∙ up)))
  ]
]

-- The level of a drill is an upper bound of what its passed checks claim, and it is either "nothing"
-- or the claim of a check that passed.
pub proven_by-greatest :
    (cs : List ProofCheck)
    → ((m : ProofLevel) → Claims m cs → rank m ≤ℤ rank (proven_by cs))
      × ((proven_by cs ≡ proof_none) ⊎ Claims (proven_by cs) cs)
unfolding proven_by
proven_by-greatest cs =
    (λ m h. proven_from-upper m proof_none cs h, proven_from-attained proof_none cs)
