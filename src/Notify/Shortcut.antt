-- ===== src/Notify/Shortcut.antt =====
-- The two questions that spare the second query of `considerValues`.
use restorelab.Prelude.{
  ◌≡◌, refl, sym, Bool, true, false, not, ◌||◌, String, Option, none, some, List, [], ◌∷◌, inl, inr,
  Bool-cases, if◌then◌else◌,
}
use restorelab.Core.Float.{Float64}
use restorelab.Core.Run.{terminal}
use restorelab.Notify.Story.{Story, Transition}
use restorelab.Notify.Collapse.{
  Values, value, is_zero, zero_names, first_fallen, collapsed, zeroed, no_verdict, say_fallen,
  decide_collapse,
}
use restorelab.Notify.Dispatcher.{Env, Desk, measured, compare_values, consider_values, story_of}
use restorelab.Store.Row.{Row}
use restorelab.Store.Table.{sort_by, text_before}

no_zero_names : (m : Values Float64) → zeroed m ≡ false → zero_names m ≡ []
unfolding zeroed zero_names
no_zero_names [] h = refl
no_zero_names (e ∷ m) h = elim (Bool-cases (is_zero e.1)) [
  | inl z ↦ absurd (clash (rw z at h))
  | inr n ↦ rw n (no_zero_names m (rw n at h))
]
  where
    clash : true ≡ false → ⊥
    clash h = cc

-- Without a zero among the values, nothing collapsed.
unzeroed : (m before : Values Float64) → zeroed m ≡ false → collapsed m before ≡ none
unfolding collapsed sort_by first_fallen
unzeroed m before h = rw (no_zero_names m h) refl

unvalued : (ns : List String) → first_fallen ns [] ≡ none
unfolding first_fallen value
unvalued [] = refl
unvalued (n ∷ ns) = unvalued ns

-- What the drill before measured, nothing without one.
abbrev pub values_before : (e : Env) → Option Row → Desk e → Values Float64
values_before e none d = []
values_before e (some before) d = (measured before.id d).0

silent :
    (format : Float64 → String) (current : Story) (previous : Option Story) (b : Bool)
    (o : Option (String × Float64))
    → o ≡ none
    → (if b then none else say_fallen format current previous o) ≡ none
silent format current previous true o h = refl
silent format current previous false o h = rw h refl

refused :
    {e : Env} (b t : Bool) (d : Desk e) (x : Option Transition × Desk e) (y : Option Transition)
    → x.0 ≡ (if t || b then none else y)
    → (if b then (none, d) else x).0 ≡ (if t || b then none else y)
refused true true d x y h = refl
refused true false d x y h = refl
refused false t d x y h = h

-- The two refusals that spare queries lose nothing: the answer is that of `DecideCollapse` on the
-- values of the run and of the drill before it, where there was one, for a run that has ended.
pub consider_values-decide_collapse :
    (e : Env) (run : Row) (previous : Option Story) (before : Option Row) (d : Desk e)
    → (consider_values run (story_of run) previous before d).0
      ≡ decide_collapse e.format run.state
          (story_of run)
          previous
          (measured run.id d).0
          (values_before e before (measured run.id d).1)
unfolding consider_values decide_collapse collapsed
consider_values-decide_collapse e run previous none d = sym (
    silent e.format (story_of run) previous _ _
      (unvalued (sort_by text_before (zero_names (measured run.id d).0))))
consider_values-decide_collapse e run previous (some before) d =
    refused (no_verdict run.result) (not (terminal run.state)) d _ _
      (asked (zeroed (measured run.id d).0) refl)
  where
    fallen : Option Transition
    fallen =
        say_fallen e.format (story_of run) previous
          (collapsed (measured run.id d).0 (measured before.id (measured run.id d).1).0)

    asked :
        (z : Bool)
        → zeroed (measured run.id d).0 ≡ z
        → (compare_values run (story_of run) previous before (measured run.id d)).0
          ≡ (if not (terminal run.state) || no_verdict run.result then none else fallen)
    asked true q = rw q refl
    asked false q =
        rw q
          (sym (silent e.format (story_of run) previous _ _ (unzeroed (measured run.id d).0 _ q)))
