-- ===== src/Store/Changes.antt =====
-- How the statements of the queue read and change one row: stated apart from their clauses.
pub mod Counts
use text.Mathlib.TextPositions.{eq_refl}
use mathlib.Core.Option.{some-injective}
use restorelab.Prelude.{
  ◌≡◌, ◌≢◌, refl, sym, ap, ◌∙◌, Bool, true, false, ◌&&◌, String, Option, none, some, map, List, [],
  ◌∷◌, All, Bool-cases, inl, inr, str_eq, eq_iff, if◌then◌else◌,
}
use restorelab.Core.Run.{RunState}
use restorelab.Store.Table.{update_where, find_where, any_where}
use restorelab.Store.Row.{Row, is_queued, is_null}
use restorelab.Store.Queue.{has_id, claimable}
use restorelab.Store.Keyed.{IsKeyed, either_false, other_id}

-- A run that waits for a worker, as the queue has it.
pub record Waiting (r : Row) : Type 0 where
  pub in_queue : r.state ≡ RunState.queued
  pub free : r.lease_owner ≡ none

pub claimable-Waiting : (r : Row) → claimable r ≡ true → Waiting r
claimable-Waiting r h = read h
  where
    owner : (o : Option String) → is_null o ≡ true → o ≡ none
    owner none k = refl
    owner (some x) k = cc

    read : (is_queued r.state && is_null r.lease_owner) ≡ true → Waiting r
    read k =
        let (q, f) = both _ _ k in
        record { in_queue = queued_state r.state q; free = owner r.lease_owner f }
      where
        both : (a b : Bool) → (a && b) ≡ true → (a ≡ true) × (b ≡ true)
        both true b e = (refl, e)
        both false b e = cc

        queued_state : (st : RunState) → is_queued st ≡ true → st ≡ RunState.queued
        queued_state RunState.queued e = refl
        queued_state _ e = cc

pub Waiting-claimable : (r : Row) → Waiting r → claimable r ≡ true
Waiting-claimable r w = rw (w.in_queue, w.free) refl

-- A row is found by its id.
pub row-found : (t : List Row) → IsKeyed t → All (λ r. find_where (has_id r.id) t ≡ some r) t
unfolding find_where any_where
row-found [] k = tt
row-found (x ∷ t) k = (rw (eq_refl x.id) refl, later t k.0 (row-found t k.1))
  where
    later :
        (u : List Row)
        → any_where (has_id x.id) u ≡ false
        → All (λ r. find_where (has_id r.id) t ≡ some r) u
        → All (λ r. find_where (has_id r.id) (x ∷ t) ≡ some r) u
    later [] a h = tt
    later (y ∷ u) a h =
        let (here, rest) = either_false (has_id x.id y) a in
        (rw (other_id y.id x.id here) h.0, later u rest h.1)

-- A table in which one row was rewritten: the row of the id is `r`, and the rows of the other ids and
-- the list of the ids are as they were.
pub record Rewritten (id : String) (r : Row) (t t' : List Row) : Type 0 where
  pub row : find_where (has_id id) t' ≡ some r
  pub others : (x : String) → x ≢ id → find_where (has_id x) t' ≡ find_where (has_id x) t
  pub ids : map (λ y. y.id) t' ≡ map (λ y. y.id) t

module _ (id : String) (p : Row → Bool) (f : Row → Row) (same : (r : Row) → (f r).id ≡ r.id) where
  rewrite_row : List Row → List Row
  rewrite_row = update_where (λ x. has_id id x && p x) f

  rewritten-row :
      (t : List Row) (r : Row)
      → find_where (has_id id) t ≡ some r
      → p r ≡ true
      → find_where (has_id id) (rewrite_row t) ≡ some (f r)
  unfolding find_where update_where rewrite_row
  rewritten-row [] r e q = cc
  rewritten-row (x ∷ t) r e q = split (has_id id x) refl e (λ k. rewritten-row t r k q)
    where
      split :
          (b : Bool)
          → has_id id x ≡ b
          → (if b then some x else find_where (has_id id) t) ≡ some r
          → (find_where (has_id id) t ≡ some r
              → find_where (has_id id) (rewrite_row t) ≡ some (f r))
          → find_where (has_id id) ((if b && p x then f x else x) ∷ rewrite_row t) ≡ some (f r)
      split true h k ih =
          let hit : x ≡ r = some-injective _ _ k in
          rw (ap p hit ∙ q) (
            picked (has_id id (f x)) (ap (λ i. str_eq i id) (same x) ∙ h)
            ∙ ap (λ y. some (f y)) hit)
        where
          picked :
              (c : Bool)
              → c ≡ true
              → (if c then some (f x) else find_where (has_id id) (rewrite_row t)) ≡ some (f x)
          picked true e = refl
          picked false e = cc
      split false h k ih = rw h (ih k)

  rewritten-other :
      (y : String) (t : List Row)
      → y ≢ id
      → find_where (has_id y) (rewrite_row t) ≡ find_where (has_id y) t
  unfolding find_where update_where rewrite_row
  rewritten-other y [] n = refl
  rewritten-other y (x ∷ t) n =
      let rest = rewritten-other y t n in
      elim (Bool-cases (has_id id x && p x)) [
        | inl b ↦ rw (b, same x, apart (has_id id x) refl b) rest
        | inr b ↦ rw (b, rest) refl
      ]
    where
      apart : (c : Bool) → has_id id x ≡ c → (c && p x) ≡ true → has_id y x ≡ false
      apart true e k = elim (Bool-cases (has_id y x)) [
        | inl d ↦ absurd (n (sym ((eq_iff x.id y).0 d) ∙ (eq_iff x.id id).0 e))
        | inr d ↦ d
      ]
      apart false e k = cc

  rewritten-ids : (t : List Row) → map (λ y. y.id) (rewrite_row t) ≡ map (λ y. y.id) t
  unfolding update_where rewrite_row
  rewritten-ids [] = refl
  rewritten-ids (x ∷ t) = elim (Bool-cases (has_id id x && p x)) [
    | inl b ↦ rw (b, same x) (ap (λ l. x.id ∷ l) (rewritten-ids t))
    | inr b ↦ rw b (ap (λ l. x.id ∷ l) (rewritten-ids t))
  ]

  pub update_where-Rewritten :
      (t : List Row) (r : Row)
      → find_where (has_id id) t ≡ some r
      → p r ≡ true
      → Rewritten id (f r) t (update_where (λ x. has_id id x && p x) f t)
  unfolding rewrite_row
  update_where-Rewritten t r e q = record {
    row = rewritten-row t r e q;
    others = λ y n. rewritten-other y t n;
    ids = rewritten-ids t;
  }
