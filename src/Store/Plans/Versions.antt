-- ===== src/Store/Plans/Versions.antt =====
-- The optimistic versions of internal/store/plans.go: what a version that a writer read is worth.
use restorelab.Prelude.{ℕ, suc, ◌≤◌, ◌≡◌, Bool, true, false, String, List, [], ◌∷◌, All}
use restorelab.Store.Table.{any_where}
use restorelab.Store.Plans.{
  PlanRow, ok, has_plan_id, resolve_plan_ref, PlanWrite, creating, updating, deleting, write_plan,
}

-- The rows of a plan have a version above `n`.
abbrev IsAbove : String → ℕ → PlanRow → Type 0
IsAbove id n r = has_plan_id id r ≡ true → suc n ≤ r.version

-- The plan is stored, with a version above `n`.
record Surpassed (id : String) (n : ℕ) (t : List PlanRow) : Type 0 where
  above : All (IsAbove id n) t
  stored : any_where (has_plan_id id) t ≡ true

abbrev IsOther : String → PlanRow → Type 0
IsOther id r = has_plan_id id r ≡ false

-- No deletion among the writes removes the plan.
abbrev IsSpared : (String → String → Bool) → String → PlanWrite → List PlanRow → Type 0
IsSpared starts id (creating p) t = Unit
IsSpared starts id (updating v p e) t = Unit
IsSpared starts id (deleting v ref) t = ¬ (resolve_plan_ref starts ref v ≡ ok id)

abbrev pub write_plans : (String → String → Bool) → List PlanWrite → List PlanRow → List PlanRow
write_plans starts [] t = t
write_plans starts (w ∷ ws) t = write_plans starts ws (write_plan starts w t).1

abbrev pub AreSpared : (String → String → Bool) → String → List PlanWrite → List PlanRow → Type 0
AreSpared starts id [] t = Unit
AreSpared starts id (w ∷ ws) t =
    IsSpared starts id w t × AreSpared starts id ws (write_plan starts w t).1
