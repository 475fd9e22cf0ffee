-- ===== src/Store/Cancel.antt =====
-- What `RequestCancel` answers, read off the row that it is about.
use restorelab.Prelude.{
  ℕ, ◌≡◌, refl, sym, ◌∙◌, true, false, String, Option, none, some, List, ◌==◌, Bool-cases,
  Option-cases, inl, inr, arith, if◌then◌else◌,
}
use restorelab.Core.Run.{RunState, terminal}
use restorelab.Store.Table.{count_where, find_where}
use restorelab.Store.Row.{Row, in_terminal_states, in_terminal_states-terminal}
use restorelab.Store.Queue.{
  has_id, cancel_waiting, ask_to_stop, refuse_cancel, CancelAnswer, settled, asked, not_found,
  already_settled, waits, cancel_row, ask_row, open_run, claimable, request_cancel,
}
use restorelab.Store.Keyed.{IsKeyed}
use restorelab.Store.Changes.Counts.{update-none, both, count-found, count-missed}
use restorelab.Store.Changes.{
  Waiting, Waiting-claimable, claimable-Waiting, Rewritten, update_where-Rewritten,
}

-- Nothing to withdraw under the id, and nothing to stop.
abbrev pub NoneWaits : String → List Row → Type 0
NoneWaits id t = (r : Row) → find_where (has_id id) t ≡ some r → Waiting r → ⊥

abbrev pub NoneOpen : String → List Row → Type 0
NoneOpen id t = (r : Row) → find_where (has_id id) t ≡ some r → terminal r.state ≡ true

-- The answers of `RequestCancel`, and the table that each leaves: `t`, `t2` and `t3` are the tables that
-- its three statements find.
pub data CancelSays (id : String) (at : ℕ) (t t2 t3 : List Row)
    : CancelAnswer × List Row → Type 0 where
  withdrawn :
      (r : Row) (t' : List Row)
      → find_where (has_id id) t ≡ some r
      → Waiting r
      → Rewritten id
          (record r {
            state = RunState.cancelled;
            completed_at = some at;
            cancel_requested_at = some at;
          })
          t
          t'
      → CancelSays id at t t2 t3 (settled, t')
  requested :
      (r : Row) (t' : List Row)
      → NoneWaits id t
      → find_where (has_id id) t2 ≡ some r
      → terminal r.state ≡ false
      → Rewritten id (record r { cancel_requested_at = some at }) t2 t'
      → CancelSays id at t t2 t3 (asked, t')
  finished :
      (r : Row)
      → NoneWaits id t
      → NoneOpen id t2
      → find_where (has_id id) t3 ≡ some r
      → CancelSays id at t t2 t3 (already_settled r.state, t3)
  missing :
      NoneWaits id t
      → NoneOpen id t2
      → find_where (has_id id) t3 ≡ none
      → CancelSays id at t t2 t3 (not_found, t3)

-- What a statement on one row says of the table, as its count is.
none-Waits :
    (id : String) (t : List Row)
    → IsKeyed t
    → count_where (both id claimable) t ≡ 0
    → NoneWaits id t
none-Waits id t k c r f w =
    let one : count_where (both id claimable) t ≡ 1 =
      count-found id claimable t r k f ∙ rw (Waiting-claimable r w) refl in
    absurd (omega (arith, c, one))

none-Open :
    (id : String) (t : List Row) → IsKeyed t → count_where (both id open_run) t ≡ 0 → NoneOpen id t
none-Open id t k c r f =
    let counted = count-found id open_run t r k f in
    elim (Bool-cases (in_terminal_states r.state)) [
      | inl d ↦ sym (in_terminal_states-terminal r.state) ∙ d
      | inr d ↦
          let one : count_where (both id open_run) t ≡ 1 = counted ∙ rw d refl in
          absurd (omega (arith, c, one))
    ]

module _ (id : String) (at : ℕ) (others later : List Row → List Row) (t : List Row) where
  abbrev third : List Row
  third = later (ask_to_stop id at (others t))

  refused-CancelSays :
      (o : Option Row)
      → NoneWaits id t
      → NoneOpen id (others t)
      → find_where (has_id id) third ≡ o
      → CancelSays id at t (others t) third (refuse_cancel o, third)
  refused-CancelSays none w n e = missing w n e
  refused-CancelSays (some r) w n e = finished r w n e

  stopped :
      (r : Row)
      → find_where (has_id id) (others t) ≡ some r
      → in_terminal_states r.state ≡ false
      → Rewritten id
          (record r { cancel_requested_at = some at })
          (others t)
          (ask_to_stop id at (others t))
  unfolding ask_to_stop
  stopped r f d =
      update_where-Rewritten id open_run (ask_row at) (λ x. refl) (others t) r f (rw d refl)

  -- What the last two statements answer where the first found nothing.
  asked-CancelSays :
      NoneWaits id t
      → IsKeyed (others t)
      → CancelSays id at t (others t) third (
          if count_where (both id open_run) (others t) == 1
          then (asked, ask_to_stop id at (others t))
          else (refuse_cancel (find_where (has_id id) third), third))
  asked-CancelSays w k = elim (Option-cases (find_where (has_id id) (others t))) [
    | inl f ↦
        let o = count-missed id open_run (others t) f in
        rw o (refused-CancelSays _ w (none-Open id (others t) k o) refl)
    | inr f ↦
        let o = count-found id open_run (others t) f.0 k f.1 in
        elim (Bool-cases (in_terminal_states f.0.state)) [
          | inl d ↦
              let o0 : count_where (both id open_run) (others t) ≡ 0 = o ∙ rw d refl in
              rw o0 (refused-CancelSays _ w (none-Open id (others t) k o0) refl)
          | inr d ↦
              let o1 : count_where (both id open_run) (others t) ≡ 1 = o ∙ rw d refl in
              rw o1 (
                requested f.0 _ w f.1 (sym (in_terminal_states-terminal f.0.state) ∙ d)
                  (stopped f.0 f.1 d))
        ]
  ]

  untouched :
      IsKeyed t
      → IsKeyed (others t)
      → count_where (both id claimable) t ≡ 0
      → CancelSays id at t
          (others t)
          (later (ask_to_stop id at (others t)))
          (request_cancel id at others later t)
  unfolding request_cancel cancel_waiting
  untouched k l w =
      rw (w, update-none (waits id) (cancel_row at) t w) (asked-CancelSays (none-Waits id t k w) l)

-- `RequestCancel` on tables with their primary key, whatever is written between its three statements.
-- The run waits in the queue of the first table and no worker has claimed it: it is cancelled at once,
-- in that one row. Else it is not terminal in the second table, and asked to stop, in that one row. Else
-- the third table says whether the id is unknown or the run has settled, with its state.
pub request_cancel-CancelSays :
    (id : String) (at : ℕ) (others later : List Row → List Row) (t : List Row)
    → IsKeyed t
    → IsKeyed (others t)
    → CancelSays id at t
        (others t)
        (later (ask_to_stop id at (others t)))
        (request_cancel id at others later t)
unfolding request_cancel cancel_waiting
request_cancel-CancelSays id at others later t k l =
    elim (Option-cases (find_where (has_id id) t)) [
      | inl f ↦ untouched id at others later t k l (count-missed id claimable t f)
      | inr f ↦ elim (Bool-cases (claimable f.0)) [
        | inl c ↦
            rw (count-found id claimable t f.0 k f.1, c)
              (withdrawn f.0 _ f.1 (claimable-Waiting f.0 c)
                (update_where-Rewritten id claimable (cancel_row at) (λ r. refl) t f.0 f.1 c))
        | inr c ↦
            untouched id at others later t k l (count-found id claimable t f.0 k f.1 ∙ rw c refl)
      ]
    ]
