-- ===== src/Store/Considered.antt =====
-- A run is considered for a message at most once.
use text.Mathlib.TextPositions.{eq_refl}
use restorelab.Prelude.{
  ℕ, suc, ◌≡◌, refl, ap, ◌∙◌, Bool, true, false, ◌&&◌, String, List, [], ◌∷◌, Bool-cases, inl, inr,
  str_eq, eq_iff, All, if◌then◌else◌,
}
use restorelab.Core.Errors.{Error}
use restorelab.Store.Table.{count_where, any_where}
use restorelab.Store.Table.Laws.{any_where-update_where, All-updated}
use restorelab.Store.Row.{Row, is_null}
use restorelab.Store.Queue.{has_id}
use restorelab.Store.Held.{Held, About}
use restorelab.Store.Operations.{Operation, apply_all}
use restorelab.Store.Lasting.{Lasts-apply_all}
use restorelab.Store.Deliveries.{unnotified, mark_notified, claim_run_for_notify}

abbrev WasConsidered : Row → Type 0
WasConsidered r = is_null r.notified_at ≡ false

abbrev Considered : String → List Row → Type 0
Considered id t = Held id WasConsidered t

both_false : {b : Bool} (a : Bool) → a ≡ true → (a && b) ≡ false → b ≡ false
both_false true e k = k
both_false false e k = cc

-- A claim leaves the run considered, if there is one.
claim_run_for_notify-Considered :
    (id : String) (at : ℕ) (t : List Row)
    → any_where (has_id id) t ≡ true
    → Considered id (claim_run_for_notify id at t).1
unfolding claim_run_for_notify
claim_run_for_notify-Considered id at t there = record {
  present = any_where-update_where (has_id id) _ (mark_notified at) t (λ r. refl) ∙ there;
  holds =
      All-updated (About id WasConsidered) _ (mark_notified at) t (λ r _ _. refl)
        (λ r other i. both_false (str_eq r.id id) (ap (λ j. str_eq j id) i ∙ eq_refl id) other);
}

none_left :
    (id : String) (t : List Row)
    → All (About id WasConsidered) t
    → count_where (unnotified id) t ≡ 0
unfolding count_where
none_left id [] h = refl
none_left id (r ∷ t) h = elim (Bool-cases (str_eq r.id id)) [
  | inl same ↦ rw (same, h.0 ((eq_iff r.id id).0 same)) (none_left id t h.1)
  | inr other ↦ rw other (none_left id t h.1)
]

won-present :
    (id : String) (t : List Row)
    → any_where (has_id id) t ≡ false
    → count_where (unnotified id) t ≡ 0
unfolding any_where count_where
won-present id [] h = refl
won-present id (r ∷ t) h = missed (str_eq r.id id) h (won-present id t)
  where
    missed :
        {r' : Bool} {n : ℕ} (b : Bool)
        → (if b then true else r') ≡ false
        → (r' ≡ false → n ≡ 0)
        → (if b && is_null r.notified_at then suc n else n) ≡ 0
    missed true k f = cc
    missed false k f = f k

-- A run that a dispatcher has claimed is claimed by none again, whatever the API, the scheduler, the
-- workers and the reconciliation write to the queue in between.
pub claim_run_for_notify-once :
    (text : Error → String) (id : String) (at : ℕ) (t : List Row) (ops : List Operation) (at' : ℕ)
    → (claim_run_for_notify id at t).0 ≡ true
    → (claim_run_for_notify id at' (apply_all text ops (claim_run_for_notify id at t).1)).0 ≡ false
unfolding claim_run_for_notify
claim_run_for_notify-once text id at t ops at' won = elim (Bool-cases (any_where (has_id id) t)) [
  | inl there ↦
      let k =
        Lasts-apply_all (λ owner notified. is_null notified ≡ false) (λ owner o n l. l) id text ops
          _ (claim_run_for_notify-Considered id at t there) in
      rw (none_left id _ k.holds) refl
  | inr missing ↦ absurd (clash (rw (won-present id t missing) at won))
]
  where
    clash : false ≡ true → ⊥
    clash h = cc
