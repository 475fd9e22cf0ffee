-- ===== src/Notify/Story/History.antt =====
-- What a channel has been told of a workload, against what its drills established.
use mathlib.Core.Option.{some-injective}
use restorelab.Prelude.{
  ◌≡◌, refl, sym, ap, subst, arith, ◌&&◌, ◌∙◌, Bool, true, false, inl, inr, Option, none, some,
  List, [], ◌∷◌, All, Bool-cases, if◌then◌else◌,
}
use restorelab.Prelude.Int.{ℤ, ◌≤ℤ◌, ltb_ℤ}
use restorelab.Core.Proof.{ProofLevel, rank, recorded}
use restorelab.Core.Run.{RunState, RunResult, terminal}
use restorelab.Notify.Story.{
  Story, Kind, Transition, same_result, is_inconclusive, proof_fell, decide_unevaluable,
  decide_graded, decide,
}

-- A drill that has ended.
pub record Past : Type 0 where
  pub state : RunState
  pub story : Story

-- The drills of a workload stand newest first. `PreviousStory` reads of them the newest with a
-- verdict, and whether the newest of all was inconclusive.
abbrev pub or_before : Story → Option RunResult → Option Story → Option Story
or_before s none before = before
or_before s (some _) before = some s

unfoldable pub baseline : List Past → Option Story
baseline [] = none
baseline (r ∷ rs) = or_before r.story r.story.result (baseline rs)

abbrev pub was_unevaluable : List Past → Bool
was_unevaluable [] = false
was_unevaluable (r ∷ rs) = is_inconclusive r.state

abbrev pub hear : Option Transition → List Transition → List Transition
hear none told = told
hear (some t) told = t ∷ told

-- The messages about the drills, newest first.
unfoldable pub messages : List Past → List Transition
messages [] = []
messages (r ∷ rs) = hear (decide r.state r.story (baseline rs) (was_unevaluable rs)) (messages rs)

-- What is known of a workload: nothing, that it cannot be evaluated, or how it was graded and what it
-- proved.
pub data Standing : Type 0 where
  nothing blind : Standing
  graded : Option RunResult → ProofLevel → Standing

abbrev pub as_graded : Story → Standing
as_graded s = graded s.result s.proof_level

abbrev pub told_by : Kind → Story → Standing
told_by Kind.became_unevaluable s = blind
told_by _ s = as_graded s

-- To somebody who reads only the newest message.
abbrev pub believed : List Transition → Standing
believed [] = nothing
believed (t ∷ ts) = told_by t.kind t.current

-- To somebody who sees the newest drill.
abbrev pub established : List Past → Standing
established [] = nothing
established (r ∷ rs) = if is_inconclusive r.state then blind else as_graded r.story

-- A belief that is true: of the same kind, with the same result, and of no level above the proven one.
abbrev pub Holds : Standing → Standing → Type 0
Holds nothing nothing = Unit
Holds blind blind = Unit
Holds (graded v l) (graded v' l') = (v ≡ v') × (rank l ≤ℤ rank l')
Holds _ _ = ⊥

-- A drill that was graded, or one that could not be evaluated.
pub data Ended : RunState → Option RunResult → Type 0 where
  success : (v : RunResult) → Ended RunState.success (some v)
  failed : (v : RunResult) → Ended RunState.failed (some v)
  cleanup_failed : (v : RunResult) → Ended RunState.cleanup_failed (some v)
  inconclusive : Ended RunState.inconclusive none

-- The level of a graded drill was written down.
abbrev pub HasEnded : Past → Type 0
HasEnded r = Ended r.state r.story.result × (recorded r.story.proof_level ≡ true)

Holds-refl : (x : Standing) → Holds x x
Holds-refl nothing = tt
Holds-refl blind = tt
Holds-refl (graded v l) = (refl, omega arith)

established-blind : (rs : List Past) → was_unevaluable rs ≡ true → established rs ≡ blind
established-blind [] h = cc
established-blind (r ∷ rs) h = rw h refl

same_result→≡ : (a b : Option RunResult) → same_result a b ≡ true → a ≡ b
same_result→≡ none none h = refl
same_result→≡ none (some _) h = cc
same_result→≡ (some RunResult.success) (some RunResult.success) h = refl
same_result→≡ (some RunResult.degraded) (some RunResult.degraded) h = refl
same_result→≡ (some RunResult.failed) (some RunResult.failed) h = refl
same_result→≡ (some RunResult.success) none h = cc
same_result→≡ (some RunResult.success) (some RunResult.degraded) h = cc
same_result→≡ (some RunResult.success) (some RunResult.failed) h = cc
same_result→≡ (some RunResult.degraded) none h = cc
same_result→≡ (some RunResult.degraded) (some RunResult.success) h = cc
same_result→≡ (some RunResult.degraded) (some RunResult.failed) h = cc
same_result→≡ (some RunResult.failed) none h = cc
same_result→≡ (some RunResult.failed) (some RunResult.success) h = cc
same_result→≡ (some RunResult.failed) (some RunResult.degraded) h = cc

verdict_of :
    (state : RunState) (result : Option RunResult)
    → is_inconclusive state ≡ false
    → Ended state result
    → (v : RunResult) × (result ≡ some v)
verdict_of _ _ h (success v) = (v, refl)
verdict_of _ _ h (failed v) = (v, refl)
verdict_of _ _ h (cleanup_failed v) = (v, refl)
verdict_of _ _ h inconclusive = cc

-- The drill that the next one is compared with, where the newest one was graded.
established-graded :
    (rs : List Past) (s : Story)
    → All HasEnded rs
    → was_unevaluable rs ≡ false
    → baseline rs ≡ some s
    → (established rs ≡ as_graded s) × (recorded s.proof_level ≡ true)
unfolding baseline
established-graded [] s h flag e = cc
established-graded (r ∷ rs) s h flag e =
    let (v, q) = verdict_of r.state r.story.result flag h.0.0 in
    let same : r.story ≡ s =
      some-injective _ _ (sym (ap (λ o. or_before r.story o (baseline rs)) q) ∙ e) in
    (rw flag (ap as_graded same), sym (ap (λ x. recorded x.proof_level) same) ∙ h.0.1)

-- Without a drop the level is no lower than before.
held_level :
    (current previous : Story)
    → recorded current.proof_level ≡ true
    → recorded previous.proof_level ≡ true
    → proof_fell current previous ≡ false
    → rank previous.proof_level ≤ℤ rank current.proof_level
unfolding proof_fell
held_level current previous h k fell =
    no_less _ _ (rank current.proof_level) (rank previous.proof_level) h k fell
  where
    no_less : (a b : Bool) (x y : ℤ) → a ≡ true → b ≡ true → (a && b && ltb_ℤ x y) ≡ false → y ≤ℤ x
    no_less true true x y p q e = ground (arith, e)
    no_less true false x y p q e = cc
    no_less false b x y p q e = cc

-- What is told of a drill that was graded as the one before it, without a drop.
still-Holds :
    (told : Standing) (current previous : Story)
    → current.result ≡ previous.result
    → rank previous.proof_level ≤ℤ rank current.proof_level
    → Holds told (as_graded previous)
    → Holds told (as_graded current)
still-Holds nothing c p e l h = h
still-Holds blind c p e l h = h
still-Holds (graded v x) c p e l h = (h.0 ∙ sym e, omega (arith, h.1, l))

-- Where the newest message stands, given what the messages before it said.
graded-told :
    (current : Story) (previous : Option Story) (flag : Bool) (told : List Transition)
    → recorded current.proof_level ≡ true
    → ((s : Story)
        → flag ≡ false
        → previous ≡ some s
        → Holds (believed told) (as_graded s) × (recorded s.proof_level ≡ true))
    → Holds (believed (hear (decide_graded current previous flag) told)) (as_graded current)
graded-told current none flag told level h = Holds-refl (as_graded current)
graded-told current (some s) true told level h =
    elim (Bool-cases (same_result current.result s.result)) [
      | inr other ↦ rw other (Holds-refl (as_graded current))
      | inl same ↦ rw same (Holds-refl (as_graded current))
    ]
graded-told current (some s) false told level h =
    elim (Bool-cases (same_result current.result s.result)) [
      | inr other ↦ rw other (Holds-refl (as_graded current))
      | inl same ↦ rw same (elim (Bool-cases (proof_fell current s)) [
        | inl fell ↦ rw fell (Holds-refl (as_graded current))
        | inr held ↦
            let before = h s refl refl in
            rw held (
              still-Holds (believed told) current s (same_result→≡ _ _ same)
                (held_level current s level before.1 held) before.0)
      ])
    ]

unevaluable-told :
    (current : Story) (previous : Option Story) (flag : Bool) (told : List Transition)
    → (flag ≡ true → Holds (believed told) blind)
    → Holds
        (believed (hear (if flag then none else decide_unevaluable current previous) told))
        blind
unevaluable-told current previous true told h = h refl
unevaluable-told current none false told h = tt
unevaluable-told current (some s) false told h = tt

decided-told :
    (state : RunState) (result : Option RunResult) (current : Story) (previous : Option Story)
    (flag : Bool) (told : List Transition)
    → Ended state result
    → recorded current.proof_level ≡ true
    → ((s : Story)
        → flag ≡ false
        → previous ≡ some s
        → Holds (believed told) (as_graded s) × (recorded s.proof_level ≡ true))
    → (flag ≡ true → Holds (believed told) blind)
    → Holds
        (believed (hear (decide state current previous flag) told))
        (if is_inconclusive state then blind else as_graded current)
unfolding decide terminal
decided-told _ _ current previous flag told inconclusive level h k =
    unevaluable-told current previous flag told k
decided-told _ _ current previous flag told (success v) level h k =
    graded-told current previous flag told level h
decided-told _ _ current previous flag told (failed v) level h k =
    graded-told current previous flag told level h
decided-told _ _ current previous flag told (cleanup_failed v) level h k =
    graded-told current previous flag told level h

-- The messages tell the truth. For a workload whose drills were all graded or INCONCLUSIVE, each with a
-- recorded proof level, the newest message says that the newest drill could not be evaluated if so it
-- was; else it says its result, and a proof level that is not above the one it proved. Without a
-- message there was no drill.
pub messages-truth :
    (rs : List Past) → All HasEnded rs → Holds (believed (messages rs)) (established rs)
unfolding messages
messages-truth [] h = tt
messages-truth (r ∷ rs) h =
    let before = messages-truth rs h.1 in
    decided-told r.state r.story.result r.story (baseline rs) (was_unevaluable rs) (messages rs)
      h.0.0 h.0.1
      (λ s flag e.
        let last = established-graded rs s h.1 flag e in
        (subst (Holds (believed (messages rs))) last.0 before, last.1))
      (λ flag. subst (Holds (believed (messages rs))) (established-blind rs flag) before)
