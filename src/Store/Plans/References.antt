-- ===== src/Store/Plans/References.antt =====
-- The references of internal/store/plans.go: what `resolvePlanRef` answers is in the catalogue.
use restorelab.Prelude.{ℕ, ◌≤◌, ◌≡◌, ◌≢◌, ◌⊎◌, Bool, true, String, Option, List, All}
use restorelab.Store.Table.{any_where}
use restorelab.Store.Plans.{PlanRow, Reads, Returned, ok, err, has_plan_id}

-- The catalogue has a plan with the id of the row.
abbrev IsStored : List PlanRow → PlanRow → Type 0
IsStored t r = any_where (has_plan_id r.id) t ≡ true

-- A resolution read the plan.
abbrev pub WasRead : String → Reads → Type 0
WasRead id v =
    (any_where (has_plan_id id) v.on_name ≡ true)
    ⊎ ((any_where (has_plan_id id) v.on_id ≡ true)
        ⊎ (any_where (has_plan_id id) v.on_prefix ≡ true))

-- What a version conflict says: the plan was in the catalogue when the reference was resolved; where
-- the UPDATE still finds it, a version was expected and the plan has another one; and nothing is
-- written.
pub record ConflictSays (id : String) (expected : ℕ) (v : Reads) (t t' : List PlanRow)
    : Type 0 where
  pub was_read : WasRead id v
  pub outdated : All (λ r. r.id ≡ id → (1 ≤ expected) × (r.version ≢ expected)) t
  pub same : t' ≡ t

returned : String → Returned String → String
returned other (ok id) = id
returned other (err e) = other
