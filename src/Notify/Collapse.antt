-- ===== src/Notify/Collapse.antt =====
-- internal/notify/collapse.go: whether a measured value fell to zero. A map is the list of its
-- entries, in the order in which a loop over it meets them.
pub mod Names
use Prim.Native.String.{◌++◌}
use restorelab.Prelude.{
  ℕ, zero, suc, Bool, true, false, not, ◌||◌, String, Option, none, some, List, [], ◌∷◌, str_eq,
  if◌then◌else◌,
}
use restorelab.Prelude.Int.{ℤ, pos, negsuc}
use restorelab.Core.Float.{Float64, finite, infinity, minus_infinity, nan, lt_float}
use restorelab.Core.Run.{RunState, RunResult, terminal}
use restorelab.Notify.Story.{Story, Kind, Transition, say}
use restorelab.Store.Table.{sort_by, text_before}

abbrev pub Values : Type 0 → Type 0
Values V = List (String × V)

abbrev pub has : String → List String → Bool
has name [] = false
has name (n ∷ ns) = if str_eq n name then true else has name ns

-- The maps `out` and `ambiguous` of the loop; of the second the keys count.
pub record Seen (V : Type 0) : Type 0 where
  pub out : Values V
  pub ambiguous : List String

module _ {V : Type 0} where
  -- `m[name]`
  unfoldable pub value : String → Values V → Option V
  value name [] = none
  value name (e ∷ m) = let rest = value name m in if str_eq e.0 name then some e.1 else rest

  -- `delete`
  unfoldable pub delete : String → Values V → Values V
  delete name [] = []
  delete name (e ∷ m) = let rest = delete name m in if str_eq e.0 name then rest else e ∷ rest

  abbrev pub note : String × V → Option V → Seen V → Seen V
  note e none s = record s { out = e ∷ s.out }
  note e (some _) s = record s { ambiguous = e.0 ∷ s.ambiguous }

  unfoldable pub note_all : Values V → Seen V → Seen V
  note_all [] s = s
  note_all (e ∷ m) s = note_all m (note e (value e.0 s.out) s)

  unfoldable pub note_checks : List (ℕ × Values V) → Seen V → Seen V
  unfolding note_all
  note_checks [] s = s
  note_checks (c ∷ cs) s = note_checks cs (note_all c.1 s)

  unfoldable pub delete_all : List String → Values V → Values V
  unfolding delete
  delete_all [] m = m
  delete_all (n ∷ ns) m = delete_all ns (delete n m)

  -- `valuesByName`
  unfoldable pub values_by_name : List (ℕ × Values V) → Values V
  values_by_name by_check =
      let s = note_checks by_check (record { out = []; ambiguous = [] }) in
      delete_all s.ambiguous s.out

-- `v == 0`
abbrev pub is_zero : Float64 → Bool
is_zero (finite (pos zero) k) = true
is_zero (finite (pos (suc n)) k) = false
is_zero (finite (negsuc _) k) = false
is_zero _ = false

abbrev pub is_positive : Float64 → Bool
is_positive v = lt_float (finite (pos 0) 0) v

unfoldable pub zero_names : Values Float64 → List String
zero_names [] = []
zero_names (e ∷ m) = let rest = zero_names m in if is_zero e.1 then e.0 ∷ rest else rest

abbrev pub or_else {ℓ} : {A : Type ℓ} → Option A → Option A → Option A
or_else none y = y
or_else (some x) y = some x

abbrev pub fell_from : String → Option Float64 → Option (String × Float64)
fell_from name none = none
fell_from name (some was) = if is_positive was then some (name, was) else none

unfoldable pub first_fallen : List String → Values Float64 → Option (String × Float64)
first_fallen [] before = none
first_fallen (n ∷ ns) before = or_else (fell_from n (value n before)) (first_fallen ns before)

-- `collapsed`
unfoldable pub collapsed : Values Float64 → Values Float64 → Option (String × Float64)
collapsed values before = first_fallen (sort_by text_before (zero_names values)) before

-- `Zeroed`
unfoldable pub zeroed : Values Float64 → Bool
zeroed [] = false
zeroed (e ∷ m) = is_zero e.1 || zeroed m

abbrev pub no_verdict : Option RunResult → Bool
no_verdict none = true
no_verdict (some _) = false

-- `format` is `formatValue`, the text of a number.
module _ (format : Float64 → String) where
  abbrev pub say_fallen : Story → Option Story → Option (String × Float64) → Option Transition
  say_fallen current previous none = none
  say_fallen current previous (some (name, was)) =
      say Kind.value_collapsed current previous (name ++ " fell to zero, was " ++ format was)

  -- `DecideCollapse`
  unfoldable pub decide_collapse :
      RunState → Story → Option Story → Values Float64 → Values Float64 → Option Transition
  decide_collapse state current previous values before =
      if not (terminal state) || no_verdict current.result
      then none
      else say_fallen current previous (collapsed values before)
