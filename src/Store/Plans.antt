-- ===== src/Store/Plans.antt =====
-- internal/store/plans.go: the catalogue of plans and its optimistic versions. The table is the list of
-- its rows; its primary key and its UNIQUE index on names refuse a statement with an error.
pub mod References
pub mod Versions
use restorelab.Prelude.{
  ℕ, zero, suc, Bool, true, false, not, ◌&&◌, ◌||◌, String, Option, none, some, List, [], ◌∷◌, ◌++◌,
  ltb, ◌==◌, str_eq, if◌then◌else◌,
}
use restorelab.Store.Table.{
  update_where, count_where, select_where, find_where, any_where, sort_by, limited, text_before,
  null_string,
}

pub record Plan : Type 0 where
  pub id : String
  pub name : String
  pub description : String
  pub workload_id : String
  pub provider_id : String
  pub yaml : String
  pub version : ℕ
  pub created_at : ℕ
  pub updated_at : ℕ

-- A row of the table `plans`.
pub record PlanRow : Type 0 where
  pub id : String
  pub name : String
  pub description : Option String
  pub workload_id : String
  pub provider_id : Option String
  pub plan_yaml : String
  pub version : ℕ
  pub created_at : ℕ
  pub updated_at : ℕ

pub data PlanError : Type 0 where
  err_not_found err_ambiguous err_duplicate err_version_conflict unique_violation : PlanError

pub data Returned {ℓ} (A : Type ℓ) : Type ℓ where
  ok : A → Returned A
  err : PlanError → Returned A

abbrev pub is_named : String → PlanRow → Bool
is_named name r = str_eq r.name name

abbrev pub has_plan_id : String → PlanRow → Bool
has_plan_id id r = str_eq r.id id

-- `insertPlanSQL`
abbrev pub inserted_plan : Plan → PlanRow
inserted_plan p = record {
  id = p.id;
  name = p.name;
  description = null_string p.description;
  workload_id = p.workload_id;
  provider_id = null_string p.provider_id;
  plan_yaml = p.yaml;
  version = 1;
  created_at = p.created_at;
  updated_at = p.updated_at;
}

-- `CreatePlan`. A write returns `none` for a nil error.
unfoldable pub create_plan : Plan → List PlanRow → Option PlanError × List PlanRow
create_plan p t =
    if any_where (is_named p.name) t
    then (some err_duplicate, t)
    else if any_where (has_plan_id p.id) t
    then (some unique_violation, t)
    else (none, t ++ inserted_plan p ∷ [])

-- The switch on the ids that begin with a reference.
abbrev pub unique_prefix : List PlanRow → Returned String
unique_prefix [] = err err_not_found
unique_prefix (r ∷ []) = ok r.id
unique_prefix (r ∷ _ ∷ _) = err err_ambiguous

abbrev pub plan_id_before : PlanRow → PlanRow → Bool
plan_id_before x y = text_before x.id y.id

-- `updatePlanSQL` and `updatePlanIfVersionSQL`
abbrev pub overwritten : Plan → PlanRow → PlanRow
overwritten p r = record r {
  name = p.name;
  description = null_string p.description;
  workload_id = p.workload_id;
  provider_id = null_string p.provider_id;
  plan_yaml = p.yaml;
  version = suc r.version;
  updated_at = p.updated_at;
}

abbrev pub is_updated : String → ℕ → PlanRow → Bool
is_updated id expected r = has_plan_id id r && (expected == 0 || r.version == expected)

abbrev pub is_taken : String → String → PlanRow → Bool
is_taken id name r = is_named name r && not (has_plan_id id r)

-- The statement: it fails where another plan has the name.
unfoldable pub update_statement : String → Plan → ℕ → List PlanRow → Option PlanError × List PlanRow
update_statement id p expected t =
    if count_where (is_updated id expected) t == 0
    then (some err_version_conflict, t)
    else if any_where (is_taken id p.name) t
    then (some unique_violation, t)
    else (none, update_where (is_updated id expected) (overwritten p) t)

abbrev pub deleted : String → List PlanRow → Option PlanError × List PlanRow
deleted id t =
    if count_where (has_plan_id id) t == 0
    then (some err_not_found, t)
    else (none, select_where (λ r. not (has_plan_id id r)) t)

-- The tables that the three statements of a resolution read, each as others have left it by then.
pub record Reads : Type 0 where
  pub on_name : List PlanRow
  pub on_id : List PlanRow
  pub on_prefix : List PlanRow

-- A call that writes the catalogue, with what its resolution read.
pub data PlanWrite : Type 0 where
  creating : Plan → PlanWrite
  updating : Reads → Plan → ℕ → PlanWrite
  deleting : Reads → String → PlanWrite

-- `starts id ref` is the database's `id LIKE ref || '%'`. A call runs its statements one by one: `v` is
-- what its resolution read, and `t` the table that its last statement finds.
module _ (starts : String → String → Bool) where
  abbrev pub by_prefix : String → List PlanRow → Returned String
  by_prefix ref t =
      unique_prefix (limited 2 (sort_by plan_id_before (select_where (λ r. starts r.id ref) t)))

  abbrev pub by_id : String → Reads → Option PlanRow → Returned String
  by_id ref v (some r) = ok r.id
  by_id ref v none = by_prefix ref v.on_prefix

  abbrev pub by_name : String → Reads → Option PlanRow → Returned String
  by_name ref v (some r) = ok r.id
  by_name ref v none = by_id ref v (find_where (has_plan_id ref) v.on_id)

  -- `resolvePlanRef`
  unfoldable pub resolve_plan_ref : String → Reads → Returned String
  resolve_plan_ref ref v =
      if str_eq ref ""
      then err err_not_found
      else by_name ref v (find_where (is_named ref) v.on_name)

  abbrev pub update_resolved :
      Plan → ℕ → List PlanRow → Returned String → Option PlanError × List PlanRow
  update_resolved p expected t (err e) = (some e, t)
  update_resolved p expected t (ok id) = update_statement id p expected t

  -- `UpdatePlan`
  unfoldable pub update_plan : Plan → ℕ → Reads → List PlanRow → Option PlanError × List PlanRow
  update_plan p expected v t = update_resolved p expected t (resolve_plan_ref p.id v)

  abbrev pub loaded : Option PlanRow → Returned PlanRow
  loaded none = err err_not_found
  loaded (some r) = ok r

  abbrev pub get_resolved : List PlanRow → Returned String → Returned PlanRow
  get_resolved t (err e) = err e
  get_resolved t (ok id) = loaded (find_where (has_plan_id id) t)

  -- `GetPlan`, before `scanPlan` reads its columns.
  unfoldable pub get_plan : String → Reads → List PlanRow → Returned PlanRow
  get_plan ref v t = get_resolved t (resolve_plan_ref ref v)

  abbrev pub delete_resolved : List PlanRow → Returned String → Option PlanError × List PlanRow
  delete_resolved t (err e) = (some e, t)
  delete_resolved t (ok id) = deleted id t

  -- `DeletePlan`, on the table of plans.
  unfoldable pub delete_plan : String → Reads → List PlanRow → Option PlanError × List PlanRow
  delete_plan ref v t = delete_resolved t (resolve_plan_ref ref v)

  unfoldable pub write_plan : PlanWrite → List PlanRow → Option PlanError × List PlanRow
  write_plan (creating p) t = create_plan p t
  write_plan (updating v p expected) t = update_plan p expected v t
  write_plan (deleting v ref) t = delete_plan ref v t
