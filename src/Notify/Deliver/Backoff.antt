-- ===== src/Notify/Deliver/Backoff.antt =====
-- How long a channel can make the dispatcher wait.
use restorelab.Prelude.{
  ℕ, zero, suc, ◌≤◌, ◌<◌, ◌≡◌, refl, ◌*◌, ◌&&◌, ◌==◌, length, subst, Bool, true, false, not, Option,
  none, some, List, [], ◌∷◌, All, arith, if◌then◌else◌,
}
use mathlib.Core.Option.{some-injective}
use restorelab.Prelude.Int.{ℤ, pos, negsuc, ◌≤ℤ◌}
use restorelab.Plan.{second}
use restorelab.Notify.Deliver.{
  attempts, max_retry_after, Cause, Answer, bad_target, no_answer, response, classify, to_int64,
  at_most, retry_after, is_retry, read_answer, nth, or_scheduled, next_attempt,
}

-- At most ten minutes.
abbrev IsShort : ℤ → Type 0
IsShort z = z ≤ℤ pos max_retry_after

at_most-IsShort : (z : ℤ) → IsShort (at_most max_retry_after z)
at_most-IsShort (negsuc n) = omega arith
at_most-IsShort (pos n) = ground arith

retry_after-IsShort : (header : Option ℤ) → IsShort (retry_after header)
unfolding retry_after
retry_after-IsShort none = omega arith
retry_after-IsShort (some (negsuc n)) = omega arith
retry_after-IsShort (some (pos zero)) = omega arith
retry_after-IsShort (some (pos (suc n))) = at_most-IsShort (to_int64 (suc n * second))

read_answer-IsShort :
    (ended : Option Cause) (answer : Answer) → IsShort (read_answer ended answer).retry_at
unfolding read_answer
read_answer-IsShort ended (bad_target text) = omega arith
read_answer-IsShort none (no_answer cause text) = omega arith
read_answer-IsShort (some c) (no_answer cause text) = omega arith
read_answer-IsShort ended (response status body header) =
    asked (is_retry (classify status body) && status == 429)
  where
    asked : (b : Bool) → IsShort (if b then retry_after header else pos 0)
    asked true = retry_after-IsShort header
    asked false = omega arith

nth-All :
    (P : ℕ → Type 0) (i : ℕ) (xs : List ℕ) (x : ℕ)
    → All P xs
    → nth i xs ≡ some x
    → (i < length xs) × P x
unfolding nth
nth-All P i [] x h e = cc
nth-All P zero (y ∷ ys) x h e = (omega arith, subst P (some-injective _ _ e) h.0)
nth-All P (suc i) (y ∷ ys) x h e =
    let (room, p) = nth-All P i ys x h.1 e in (omega (arith, room), p)

-- The delays of the schedule: the first is none, and the others are ten minutes at most.
scheduled-short :
    (made delay : ℕ) → nth made attempts ≡ some delay → (made ≤ 3) × (delay ≤ max_retry_after)
scheduled-short made delay e =
    let (room, short) =
      nth-All (λ x. x ≤ max_retry_after) made attempts delay
        (omega arith, (omega arith, (omega arith, (omega arith, tt)))) e in
    (omega (arith, room), short)

waits : (made : ℕ) (delay : ℕ) → 1 ≤ made → nth made attempts ≡ some delay → 1 ≤ delay
unfolding nth
waits zero delay h e = omega (arith, h)
waits (suc made) delay h e =
    (nth-All (λ x. 1 ≤ x) made (30 * second ∷ 120 * second ∷ 480 * second ∷ []) delay
      (omega arith, (omega arith, (omega arith, tt))) e).1

abbrev pub Bounded : ℕ → ℕ → Type 0
Bounded made wait = (made ≤ 3) × (wait ≤ max_retry_after) × (1 ≤ made → 1 ≤ wait)

scheduled-Bounded : (made delay : ℕ) → nth made attempts ≡ some delay → Bounded made delay
scheduled-Bounded made delay e =
    let (room, short) = scheduled-short made delay e in (room, short, λ h. waits made delay h e)

or_scheduled-Bounded :
    (made : ℕ) (asked : ℤ) (o : Option ℕ) (wait : ℕ)
    → IsShort asked
    → nth made attempts ≡ o
    → or_scheduled asked o ≡ some wait
    → Bounded made wait
or_scheduled-Bounded made asked none wait short e h = cc
or_scheduled-Bounded made (pos (suc n)) (some delay) wait short e h =
    subst (Bounded made) (some-injective _ _ h)
      ((scheduled-short made delay e).0, omega (arith, short), λ _. omega arith)
or_scheduled-Bounded made (pos zero) (some delay) wait short e h =
    subst (Bounded made) (some-injective _ _ h) (scheduled-Bounded made delay e)
or_scheduled-Bounded made (negsuc n) (some delay) wait short e h =
    subst (Bounded made) (some-injective _ _ h) (scheduled-Bounded made delay e)

-- Another attempt is announced behind at most three, after ten minutes at most and, behind the first,
-- never at once; whatever the channel answers, also where the product in `retryAfter` wraps.
pub next_attempt-Bounded :
    (made : ℕ) (ended : Option Cause) (answer : Answer) (wait : ℕ)
    → next_attempt made (read_answer ended answer) ≡ some wait
    → Bounded made wait
unfolding next_attempt
next_attempt-Bounded made ended answer wait h = tried (read_answer ended answer).retry h
  where
    tried :
        (b : Bool)
        → (if not b
            then none
            else or_scheduled (read_answer ended answer).retry_at (nth made attempts))
          ≡ some wait
        → Bounded made wait
    tried false k = cc
    tried true k = or_scheduled-Bounded made _ _ wait (read_answer-IsShort ended answer) refl k
