-- ===== src/Store/Keyed.antt =====
-- The primary key of the table of runs, which every statement keeps.
use mathlib.Core.Bool.{false≢true}
use text.Mathlib.TextPositions.{eq_refl}
use restorelab.Prelude.{
  ℕ, suc, ◌≡◌, refl, sym, ap, ◌∙◌, Bool, true, false, String, Option, none, some, List, [], ◌∷◌,
  ◌++◌, All, Bool-cases, inl, inr, ◌==◌, str_eq, eq_iff, if◌then◌else◌,
}
use restorelab.Core.Errors.{Error}
use restorelab.Store.Table.{update_where, count_where, any_where}
use restorelab.Store.Table.Laws.{any_where-update_where}
use restorelab.Store.Row.{Row}
use restorelab.Store.Queue.{
  has_id, inserted, insert_row, enqueue, create_run, update_run, set_progress, set_temp_workload,
  set_state, set_run_error, cancel_waiting, ask_to_stop, unleased, take_lease, claim_run,
  renew_lease, finish_lease,
}
use restorelab.Store.Operations.{Operation, or_keep, apply}

abbrev pub IsKeyed : List Row → Type 0
IsKeyed [] = Unit
IsKeyed (r ∷ t) = (any_where (has_id r.id) t ≡ false) × IsKeyed t

IsKeyed-update :
    (p : Row → Bool) (f : Row → Row) (t : List Row)
    → ((r : Row) → (f r).id ≡ r.id)
    → IsKeyed t
    → IsKeyed (update_where p f t)
unfolding update_where
IsKeyed-update p f [] same k = tt
IsKeyed-update p f (r ∷ t) same k = (
  elim (Bool-cases (p r)) [ inl b ↦ rw (b, same r) (later r) | inr b ↦ rw b (later r) ],
  IsKeyed-update p f t same k.1,
)
  where
    later : (x : Row) → any_where (has_id r.id) (update_where p f t) ≡ false
    later x =
        any_where-update_where (has_id r.id) p f t (λ y. ap (λ i. str_eq i r.id) (same y)) ∙ k.0

pub either_false :
    {r : Bool} (b : Bool) → (if b then true else r) ≡ false → (b ≡ false) × (r ≡ false)
either_false true h = cc
either_false false h = (refl, h)

neither : (b r : Bool) → b ≡ false → r ≡ false → (if b then true else r) ≡ false
neither true r h k = h
neither false r h k = k

pub other_id : (a b : String) → str_eq a b ≡ false → str_eq b a ≡ false
other_id a b h = elim (Bool-cases (str_eq b a)) [
  | inl e ↦ absurd (false≢true (sym h ∙ ap (λ i. str_eq a i) ((eq_iff b a).0 e) ∙ eq_refl a))
  | inr n ↦ n
]

module _ {ℓ} {A : Type ℓ} where
  absent-append :
      (q : A → Bool) (xs ys : List A)
      → any_where q xs ≡ false
      → any_where q ys ≡ false
      → any_where q (xs ++ ys) ≡ false
  unfolding any_where
  absent-append q [] ys h k = k
  absent-append q (x ∷ xs) ys h k =
      let (here, rest) = either_false (q x) h in neither (q x) _ here (absent-append q xs ys rest k)

-- The new row is none of those before it.
IsKeyed-append :
    (r : Row) (t : List Row) → any_where (has_id r.id) t ≡ false → IsKeyed t → IsKeyed (t ++ r ∷ [])
unfolding any_where
IsKeyed-append r [] h k = (refl, tt)
IsKeyed-append r (x ∷ t) h k =
    let (here, rest) = either_false (has_id r.id x) h in
    (
      absent-append (has_id x.id) t (r ∷ []) k.0
          (neither (has_id x.id r) _ (other_id x.id r.id here) refl),
      IsKeyed-append r t rest k.1,
    )

IsKeyed-inserted :
    (r : Row) (t : List Row) (b : Bool)
    → any_where (has_id r.id) t ≡ b
    → IsKeyed t
    → IsKeyed (or_keep (inserted b r t) t)
IsKeyed-inserted r t true e k = k
IsKeyed-inserted r t false e k = IsKeyed-append r t e k

IsKeyed-take_lease :
    (owner : String) (until : ℕ) (o : Option Row) (t : List Row)
    → IsKeyed t
    → IsKeyed (take_lease owner until o t).1
IsKeyed-take_lease owner until none t k = k
IsKeyed-take_lease owner until (some r) t k =
    elim (Bool-cases (count_where (unleased r.id) t == 1)) [
      | inl b ↦ rw b (IsKeyed-update _ _ t (λ x. refl) k)
      | inr b ↦ rw b k
    ]

pub IsKeyed-apply :
    (text : Error → String) (op : Operation) (t : List Row) → IsKeyed t → IsKeyed (apply text op t)
unfolding apply insert_row enqueue create_run update_run set_progress set_temp_workload set_state
    set_run_error cancel_waiting ask_to_stop claim_run renew_lease finish_lease
IsKeyed-apply text (Operation.enqueue run yaml at) t k = IsKeyed-inserted _ t _ refl k
IsKeyed-apply text (Operation.create_run run yaml) t k = IsKeyed-inserted _ t _ refl k
IsKeyed-apply text (Operation.update_run run) t k = IsKeyed-update _ _ t (λ r. refl) k
IsKeyed-apply text (Operation.set_temp_workload i temp node) t k =
    IsKeyed-update _ _ t (λ r. refl) k
IsKeyed-apply text (Operation.set_state i state) t k = IsKeyed-update _ _ t (λ r. refl) k
IsKeyed-apply text (Operation.set_run_error i message) t k = IsKeyed-update _ _ t (λ r. refl) k
IsKeyed-apply text (Operation.cancel_waiting i at) t k = IsKeyed-update _ _ t (λ r. refl) k
IsKeyed-apply text (Operation.ask_to_stop i at) t k = IsKeyed-update _ _ t (λ r. refl) k
IsKeyed-apply text (Operation.claim_run nf owner lease now) t k = IsKeyed-take_lease owner _ _ t k
IsKeyed-apply text (Operation.renew_lease i owner until) t k = IsKeyed-update _ _ t (λ r. refl) k
IsKeyed-apply text (Operation.finish_lease i) t k = IsKeyed-update _ _ t (λ r. refl) k

module _ {ℓ} {A : Type ℓ} where
  pub count-none :
      (p q : A → Bool) (xs : List A)
      → any_where q xs ≡ false
      → ((x : A) → p x ≡ true → q x ≡ true)
      → count_where p xs ≡ 0
  unfolding any_where count_where
  count-none p q [] h sub = refl
  count-none p q (x ∷ xs) h sub =
      let (here, rest) = either_false (q x) h in
      elim (Bool-cases (p x)) [
        | inl b ↦ absurd (false≢true (sym here ∙ sub x b))
        | inr b ↦ rw b (count-none p q xs rest sub)
      ]

-- Of the rows that a statement names by their id, it affects one at most.
pub count-one :
    (p : String → Row → Bool) (t : List Row)
    → ((id : String) (x : Row) → p id x ≡ true → has_id id x ≡ true)
    → IsKeyed t
    → All (λ r. p r.id r ≡ true → count_where (p r.id) t ≡ 1) t
unfolding count_where any_where
count-one p [] sub k = tt
count-one p (x ∷ t) sub k = (
  (λ b. rw b (ap suc (count-none (p x.id) (has_id x.id) t k.0 (sub x.id)))),
  later t k.0 (count-one p t sub k.1),
)
  where
    later :
        (u : List Row)
        → any_where (has_id x.id) u ≡ false
        → All (λ r. p r.id r ≡ true → count_where (p r.id) t ≡ 1) u
        → All (λ r. p r.id r ≡ true → count_where (p r.id) (x ∷ t) ≡ 1) u
    later [] a h = tt
    later (y ∷ u) a h =
        let (here, rest) = either_false (has_id x.id y) a in
        (
          (λ b. elim (Bool-cases (p y.id x)) [
            | inl c ↦ absurd (false≢true (sym (other_id y.id x.id here) ∙ sub y.id x c))
            | inr c ↦ rw c (h.0 b)
          ]),
          later u rest h.1,
        )
