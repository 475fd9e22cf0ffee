-- ===== src/Store/Settled.antt =====
-- A run that has settled stays as it is under every statement but the worker's own `UpdateRun`.
use mathlib.Core.Bool.{false≢true}
use restorelab.Prelude.{
  ℕ, ◌≡◌, refl, sym, ap, ◌∙◌, Bool, true, false, not, ◌&&◌, String, Option, none, some, List, [],
  ◌∷◌, All, Bool-cases, inl, inr, ◌==◌,
}
use restorelab.Core.Errors.{Error}
use restorelab.Core.Run.{RunState, terminal}
use restorelab.Store.Table.{update_where, count_where}
use restorelab.Store.Row.{Row, is_null, is_queued, in_terminal_states, in_terminal_states-terminal}
use restorelab.Store.Queue.{
  has_id, enqueue, create_run, set_progress, set_temp_workload, set_state, set_run_error,
  cancel_waiting, ask_to_stop, waits, open_run, unleased, take_lease, claim_run, renew_lease,
  finish_lease,
}
use restorelab.Store.Held.{Held, Held-update, Held-insert_row}
use restorelab.Store.Operations.{Operation, apply, apply_all}

abbrev pub IsAt : RunState → Row → Type 0
IsAt st r = r.state ≡ st

abbrev pub is_update : Operation → Bool
is_update (Operation.update_run run) = true
is_update _ = false

-- A clause that asks for an open run does not select a settled one.
settled-open :
    (st : RunState) (a : Bool) (r : Row)
    → terminal st ≡ true
    → (a && open_run r) ≡ true
    → IsAt st r
    → ⊥
settled-open st a r d c e =
    go a (in_terminal_states r.state) (in_terminal_states-terminal r.state ∙ ap terminal e ∙ d) c
  where
    go : (a b : Bool) → b ≡ true → (a && not b) ≡ true → ⊥
    go true true e k = false≢true k
    go true false e k = false≢true e
    go false b e k = false≢true k

terminal-queued : (st : RunState) → terminal st ≡ true → is_queued st ≡ false
unfolding terminal
terminal-queued RunState.queued h = absurd (false≢true h)
terminal-queued RunState.unset h = refl
terminal-queued RunState.discovering_backup h = refl
terminal-queued RunState.preparing h = refl
terminal-queued RunState.restoring h = refl
terminal-queued RunState.starting h = refl
terminal-queued RunState.waiting_for_guest h = refl
terminal-queued RunState.running_checks h = refl
terminal-queued RunState.generating_report h = refl
terminal-queued RunState.cleaning_up h = refl
terminal-queued RunState.success h = refl
terminal-queued RunState.failed h = refl
terminal-queued RunState.cancelled h = refl
terminal-queued RunState.cleanup_failed h = refl
terminal-queued RunState.inconclusive h = refl

module _ (id : String) (st : RunState) (done : terminal st ≡ true) where
  keep :
      (p : Row → Bool) (f : Row → Row) (t : List Row)
      → ((r : Row) → (f r).id ≡ r.id)
      → ((r : Row) → (f r).state ≡ r.state)
      → Held id (IsAt st) t
      → Held id (IsAt st) (update_where p f t)
  keep p f t same stay h = Held-update p f t same (λ r _ e. stay r ∙ e) h

  waits-never : (other : String) (r : Row) → waits other r ≡ true → IsAt st r → ⊥
  waits-never other r c e =
      go (has_id other r) (is_queued r.state) (is_null r.lease_owner)
        (ap is_queued e ∙ terminal-queued st done) c
    where
      go : (a b c : Bool) → b ≡ false → (a && (b && c)) ≡ true → ⊥
      go true true c e k = false≢true (sym e)
      go true false c e k = false≢true k
      go false b c e k = false≢true k

  IsAt-set_state :
      (other : String) (state : RunState) (t : List Row)
      → Held id (IsAt st) t
      → Held id (IsAt st) (set_state other state t)
  unfolding set_state
  IsAt-set_state other state t h =
      Held-update _ _ t (λ r. refl) (λ r c e. absurd (settled-open st (has_id other r) r done c e))
        h

  IsAt-cancel_waiting :
      (at : ℕ) (other : String) (t : List Row)
      → Held id (IsAt st) t
      → Held id (IsAt st) (cancel_waiting other at t)
  unfolding cancel_waiting
  IsAt-cancel_waiting at other t h =
      Held-update _ _ t (λ r. refl) (λ r c e. absurd (waits-never other r c e)) h

  IsAt-take_lease :
      (owner : String) (until : ℕ) (o : Option Row) (t : List Row)
      → Held id (IsAt st) t
      → Held id (IsAt st) (take_lease owner until o t).1
  IsAt-take_lease owner until none t h = h
  IsAt-take_lease owner until (some r) t h =
      elim (Bool-cases (count_where (unleased r.id) t == 1)) [
        | inl b ↦ rw b (keep _ _ t (λ x. refl) (λ x. refl) h)
        | inr b ↦ rw b h
      ]

  IsAt-apply :
      (text : Error → String) (op : Operation) (t : List Row)
      → is_update op ≡ false
      → Held id (IsAt st) t
      → Held id (IsAt st) (apply text op t)
  unfolding apply enqueue create_run set_progress set_temp_workload set_run_error ask_to_stop
      claim_run renew_lease finish_lease
  IsAt-apply text (Operation.enqueue run yaml at) t n h = Held-insert_row _ t h
  IsAt-apply text (Operation.create_run run yaml) t n h = Held-insert_row _ t h
  IsAt-apply text (Operation.update_run run) t n h = absurd (false≢true (sym n))
  IsAt-apply text (Operation.set_temp_workload i temp node) t n h =
      keep _ _ t (λ r. refl) (λ r. refl) h
  IsAt-apply text (Operation.set_state i state) t n h = IsAt-set_state i state t h
  IsAt-apply text (Operation.set_run_error i message) t n h = keep _ _ t (λ r. refl) (λ r. refl) h
  IsAt-apply text (Operation.cancel_waiting i at) t n h = IsAt-cancel_waiting at i t h
  IsAt-apply text (Operation.ask_to_stop i at) t n h = keep _ _ t (λ r. refl) (λ r. refl) h
  IsAt-apply text (Operation.claim_run nf owner lease now) t n h = IsAt-take_lease owner _ _ t h
  IsAt-apply text (Operation.renew_lease i owner until) t n h = keep _ _ t (λ r. refl) (λ r. refl) h
  IsAt-apply text (Operation.finish_lease i) t n h = keep _ _ t (λ r. refl) (λ r. refl) h

-- A run in a terminal state stays in it, and in the table, through every sequence of statements that
-- holds no `UpdateRun`: the first writer decides.
pub apply_all-settled :
    (text : Error → String) (ops : List Operation) (id : String) (st : RunState) (t : List Row)
    → terminal st ≡ true
    → All (λ op. is_update op ≡ false) ops
    → Held id (IsAt st) t
    → Held id (IsAt st) (apply_all text ops t)
unfolding apply_all
apply_all-settled text [] id st t done n h = h
apply_all-settled text (op ∷ ops) id st t done n h =
    apply_all-settled text ops id st _ done n.1 (IsAt-apply id st done text op t n.0 h)
