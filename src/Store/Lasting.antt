-- ===== src/Store/Lasting.antt =====
-- What lasts of the run of an id, whatever is written to the queue: a predicate on its owner and on
-- the time at which the notifier considered it, which a new owner does not end.
use restorelab.Prelude.{
  ℕ, ◌≡◌, refl, Bool, String, Option, none, some, List, [], ◌∷◌, Bool-cases, inl, inr, ◌==◌,
}
use restorelab.Core.Errors.{Error}
use restorelab.Store.Table.{update_where, count_where}
use restorelab.Store.Row.{Row}
use restorelab.Store.Queue.{
  enqueue, create_run, update_run, set_progress, set_temp_workload, set_state, set_run_error,
  cancel_waiting, ask_to_stop, unleased, take_lease, claim_run, renew_lease, finish_lease,
}
use restorelab.Store.Held.{Held, Held-update, Held-insert_row}
use restorelab.Store.Operations.{Operation, apply, apply_all}

abbrev On : (Option String → Option ℕ → Type 0) → Row → Type 0
On Q r = Q r.lease_owner r.notified_at

abbrev pub Lasts : (Option String → Option ℕ → Type 0) → String → List Row → Type 0
Lasts Q id t = Held id (On Q) t

module _ (Q : Option String → Option ℕ → Type 0)
    (leases : (owner : String) (o : Option String) (n : Option ℕ) → Q o n → Q (some owner) n)
    (id : String) where
  Lasts-update :
      (p : Row → Bool) (f : Row → Row) (t : List Row)
      → ((r : Row) → (f r).id ≡ r.id)
      → ((r : Row) → (On Q) r → (On Q) (f r))
      → Lasts Q id t
      → Lasts Q id (update_where p f t)
  Lasts-update p f t same keeps h = Held-update p f t same (λ r _. keeps r) h

  Lasts-take_lease :
      (owner : String) (until : ℕ) (o : Option Row) (t : List Row)
      → Lasts Q id t
      → Lasts Q id (take_lease owner until o t).1
  Lasts-take_lease owner until none t h = h
  Lasts-take_lease owner until (some r) t h =
      elim (Bool-cases (count_where (unleased r.id) t == 1)) [
        | inl b ↦
            rw b
              (Lasts-update _ _ t (λ x. refl) (λ x l. leases owner x.lease_owner x.notified_at l) h)
        | inr b ↦ rw b h
      ]

  Lasts-apply :
      (text : Error → String) (op : Operation) (t : List Row)
      → Lasts Q id t
      → Lasts Q id (apply text op t)
  unfolding apply enqueue create_run update_run set_progress set_temp_workload set_state
      set_run_error cancel_waiting ask_to_stop claim_run renew_lease finish_lease
  Lasts-apply text (Operation.enqueue run yaml at) t h = Held-insert_row _ t h
  Lasts-apply text (Operation.create_run run yaml) t h = Held-insert_row _ t h
  Lasts-apply text (Operation.update_run run) t h = Lasts-update _ _ t (λ r. refl) (λ r l. l) h
  Lasts-apply text (Operation.set_temp_workload i temp node) t h =
      Lasts-update _ _ t (λ r. refl) (λ r l. l) h
  Lasts-apply text (Operation.set_state i state) t h = Lasts-update _ _ t (λ r. refl) (λ r l. l) h
  Lasts-apply text (Operation.set_run_error i message) t h =
      Lasts-update _ _ t (λ r. refl) (λ r l. l) h
  Lasts-apply text (Operation.cancel_waiting i at) t h = Lasts-update _ _ t (λ r. refl) (λ r l. l) h
  Lasts-apply text (Operation.ask_to_stop i at) t h = Lasts-update _ _ t (λ r. refl) (λ r l. l) h
  Lasts-apply text (Operation.claim_run nf owner lease now) t h = Lasts-take_lease owner _ _ t h
  Lasts-apply text (Operation.renew_lease i owner until) t h =
      Lasts-update _ _ t (λ r. refl) (λ r l. l) h
  Lasts-apply text (Operation.finish_lease i) t h = Lasts-update _ _ t (λ r. refl) (λ r l. l) h

  pub Lasts-apply_all :
      (text : Error → String) (ops : List Operation) (t : List Row)
      → Lasts Q id t
      → Lasts Q id (apply_all text ops t)
  unfolding apply_all
  Lasts-apply_all text [] t h = h
  Lasts-apply_all text (op ∷ ops) t h = Lasts-apply_all text ops _ (Lasts-apply text op t h)
