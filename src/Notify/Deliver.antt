-- ===== src/Notify/Deliver.antt =====
-- internal/notify/deliver.go: what an answer of a channel means, and when to try again.
pub mod Backoff
use restorelab.Prelude.{
  ℕ, zero, suc, ◌-◌, ◌*◌, ◌%◌, ◌^◌, Bool, true, false, not, ◌&&◌, ◌||◌, String, Option, none, some,
  List, [], ◌∷◌, ltb, leb, ◌==◌, if◌then◌else◌,
}
use restorelab.Prelude.Int.{ℤ, pos, negsuc}
use restorelab.Plan.{second}

-- The delays are nanoseconds.
abbrev pub attempts : List ℕ
attempts = 0 ∷ 30 * second ∷ 120 * second ∷ 480 * second ∷ []

abbrev pub max_retry_after : ℕ
max_retry_after = 600 * second

-- What an error wraps, as far as the dispatcher asks.
pub data Cause : Type 0 where
  canceled deadline_exceeded other : Cause

pub record PostError : Type 0 where
  pub cause : Cause
  pub text : String
  pub retryable : Bool

pub record Result : Type 0 where
  pub status : ℕ
  pub err : Option PostError
  pub retry : Bool
  pub retry_at : ℤ

-- What the client of net/http ends in: a target that does not parse, no answer, or a status with the
-- text of the body and the header Retry-After as `strconv.Atoi` reads it.
pub data Answer : Type 0 where
  bad_target : String → Answer
  no_answer : Cause → String → Answer
  response : ℕ → String → Option ℤ → Answer

-- `classify`. `body` is the text of the error that it makes: the status and the first 512 bytes of the
-- trimmed body.
unfoldable pub classify : ℕ → String → Option PostError
classify status body =
    if leb 200 status && ltb status 300
    then none
    else some
        (record { cause = Cause.other; text = body; retryable = leb 500 status || status == 429 })

-- A 64-bit integer keeps the last 64 bits, the highest of which is the sign.
abbrev pub to_int64 : ℕ → ℤ
to_int64 n = let m = n % 2 ^ 64 in if ltb m (2 ^ 63) then pos m else negsuc (2 ^ 64 - 1 - m)

abbrev pub at_most : ℕ → ℤ → ℤ
at_most bound (negsuc n) = negsuc n
at_most bound (pos n) = if ltb bound n then pos bound else pos n

-- `retryAfter`: the product of the seconds and of a second wraps.
unfoldable pub retry_after : Option ℤ → ℤ
retry_after none = pos 0
retry_after (some (negsuc n)) = pos 0
retry_after (some (pos zero)) = pos 0
retry_after (some (pos (suc n))) = at_most max_retry_after (to_int64 (suc n * second))

abbrev is_retry : Option PostError → Bool
is_retry none = false
is_retry (some x) = x.retryable

-- `Post`, after the call of the client; `ended` is what the context of the caller ended with.
unfoldable pub read_answer : Option Cause → Answer → Result
read_answer ended (bad_target text) = record {
  status = 0;
  err = some (record { cause = Cause.other; text = text; retryable = false });
  retry = false;
  retry_at = pos 0;
}
read_answer none (no_answer cause text) = record {
  status = 0;
  err = some (record { cause = cause; text = text; retryable = true });
  retry = true;
  retry_at = pos 0;
}
read_answer (some ended) (no_answer cause text) = record {
  status = 0;
  err = some (record { cause = ended; text = "notify: delivery abandoned"; retryable = false });
  retry = false;
  retry_at = pos 0;
}
read_answer ended (response status body header) =
    let err = classify status body in
    record {
      status = status;
      err = err;
      retry = is_retry err;
      retry_at = if is_retry err && status == 429 then retry_after header else pos 0;
    }

unfoldable pub nth : ℕ → List ℕ → Option ℕ
nth i [] = none
nth zero (x ∷ xs) = some x
nth (suc i) (x ∷ xs) = nth i xs

abbrev pub or_scheduled : ℤ → Option ℕ → Option ℕ
or_scheduled asked none = none
or_scheduled (pos (suc n)) (some delay) = some (suc n)
or_scheduled (pos zero) (some delay) = some delay
or_scheduled (negsuc n) (some delay) = some delay

-- `NextAttempt`; `none` is the second result false.
unfoldable pub next_attempt : ℕ → Result → Option ℕ
next_attempt made r = if not r.retry then none else or_scheduled r.retry_at (nth made attempts)

-- `abandoned`
unfoldable pub abandoned : Option Cause → Result → Bool
abandoned ended r = elim r.err [ none ↦ false | some x ↦ stopped x.cause ended ]
  where
    stopped : Cause → Option Cause → Bool
    stopped Cause.canceled ended = true
    stopped Cause.deadline_exceeded (some _) = true
    stopped _ _ = false
