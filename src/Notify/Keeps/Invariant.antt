-- ===== src/Notify/Keeps/Invariant.antt =====
-- The table of deliveries stays well-formed.
use restorelab.Prelude.{
  ℕ, ◌≡◌, ◌≤◌, refl, sym, ap, ◌∙◌, Bool, true, false, ◌&&◌, String, Option, List, [], ◌∷◌, ◌++◌,
  All, All-append, All-weaken, Bool-cases, inl, inr, str_eq, eq_iff, if◌then◌else◌,
}
use text.Mathlib.TextPositions.{eq_refl}
use restorelab.Store.Keyed.{other_id}
use restorelab.Store.Table.{update_where, any_where}
use restorelab.Store.Table.Laws.{
  All-update_where, All-select_where, All-limited, All-sort_by, absent-append, select_where-holds,
  any_where-update_where,
}
use restorelab.Store.Deliveries.{
  DeliveryState, Delivery, is_pair, is_delivery, is_due, is_pending, due_before, outcome_of,
  create_delivery, due_deliveries, settle_delivery,
}
use restorelab.Notify.Dispatcher.{Env, Desk}
use restorelab.Notify.Attempt.{tick}
use restorelab.Notify.Keeps.{IsSound, Stands, Stable, Holds-tick}

-- No two rows agree on what `key` compares.
abbrev IsUnique : (Delivery → Delivery → Bool) → List Delivery → Type 0
IsUnique key [] = Unit
IsUnique key (d ∷ ds) = (any_where (key d) ds ≡ false) × IsUnique key ds

abbrev same_pair : Delivery → Delivery → Bool
same_pair x y = is_pair x.run_id x.channel_id y

abbrev same_id : Delivery → Delivery → Bool
same_id x y = is_delivery x.id y

-- One row for an id, and one for a run and a channel; a row that is pending has at most three
-- attempts and a time for the next, and a settled one between one and four and no such time.
pub record IsWellFormed (ds : List Delivery) : Type 0 where
  pub ids : IsUnique same_id ds
  pub pairs : IsUnique same_pair ds
  pub sound : All IsSound ds

pub pending_of : (s : DeliveryState) → is_pending s ≡ true → s ≡ DeliveryState.pending
pending_of DeliveryState.pending h = refl
pending_of DeliveryState.sent h = cc
pending_of DeliveryState.failed h = cc

both_left : (a b : Bool) → a && b ≡ true → a ≡ true
both_left true b h = refl
both_left false b h = h

pub pending-due : (now : ℕ) (d : Delivery) → is_due now d ≡ true → d.state ≡ DeliveryState.pending
pending-due now d h = pending_of d.state (both_left (is_pending d.state) _ h)

open_of :
    (s : DeliveryState) (made : ℕ) (next : Option ℕ)
    → s ≡ DeliveryState.pending
    → Stands s made next
    → made ≤ 3
open_of DeliveryState.pending made next h st = st.0
open_of DeliveryState.sent made next h st = cc
open_of DeliveryState.failed made next h st = cc

-- A row that the query for due rows returns is one of the table's, and pending.
pub due_deliveries-All :
    (Q : Delivery → Type 0) (now limit : ℕ) (ds : List Delivery)
    → All Q ds
    → All (λ d. Q d × (d.state ≡ DeliveryState.pending)) (due_deliveries now limit ds)
unfolding due_deliveries
due_deliveries-All Q now limit ds h = All-limited IsDue _ _ (
    All-sort_by IsDue due_before _
      (both _ (All-select_where Q (is_due now) ds h) (select_where-holds (is_due now) ds)))
  where
    IsDue : Delivery → Type 0
    IsDue d = Q d × (d.state ≡ DeliveryState.pending)

    both :
        (xs : List Delivery)
        → All Q xs
        → All (λ x. is_due now x ≡ true) xs
        → All (λ d. Q d × (d.state ≡ DeliveryState.pending)) xs
    both [] h k = tt
    both (x ∷ xs) h k = ((h.0, pending-due now x k.0), both xs h.1 k.1)

either_false : {r : Bool} (b : Bool) → (if b then true else r) ≡ false → (b ≡ false) × (r ≡ false)
either_false true h = cc
either_false false h = (refl, h)

IsUnique-append :
    (key : Delivery → Delivery → Bool) (ds : List Delivery) (d : Delivery)
    → ((x y : Delivery) → key x y ≡ key y x)
    → IsUnique key ds
    → any_where (key d) ds ≡ false
    → IsUnique key (ds ++ d ∷ [])
unfolding any_where
IsUnique-append key [] d swap u h = (refl, tt)
IsUnique-append key (x ∷ xs) d swap u h =
    let (other, absent) = either_false (key d x) h in
    (
      absent-append (key x) xs (d ∷ []) u.0 (rw (swap x d, other) refl),
      IsUnique-append key xs d swap u.1 absent,
    )

IsUnique-update :
    (key : Delivery → Delivery → Bool) (p : Delivery → Bool) (f : Delivery → Delivery)
    (ds : List Delivery)
    → ((x : Delivery) → key (f x) ≡ key x)
    → ((x y : Delivery) → key x (f y) ≡ key x y)
    → IsUnique key ds
    → IsUnique key (update_where p f ds)
unfolding update_where any_where
IsUnique-update key p f [] left right u = tt
IsUnique-update key p f (x ∷ xs) left right u =
    let rest = IsUnique-update key p f xs left right u.1 in
    let absent = any_where-update_where (key x) p f xs (right x) ∙ u.0 in
    elim (Bool-cases (p x)) [
      | inl b ↦ rw b (ap (λ k. any_where k (update_where p f xs)) (left x) ∙ absent, rest)
      | inr b ↦ rw b (absent, rest)
    ]

swapped : (a b : String) → str_eq a b ≡ str_eq b a
swapped a b = elim (Bool-cases (str_eq a b)) [
  | inl h ↦ h ∙ sym (ap (λ c. str_eq c a) (sym ((eq_iff a b).0 h)) ∙ eq_refl a)
  | inr h ↦ h ∙ sym (other_id a b h)
]

IsWellFormed-create :
    (d : Delivery) (ds : List Delivery)
    → IsSound d
    → IsWellFormed ds
    → IsWellFormed (create_delivery d ds).1
unfolding create_delivery
IsWellFormed-create d ds sound w =
    elim (Bool-cases (any_where (is_pair d.run_id d.channel_id) ds)) [
      | inl taken ↦ rw taken w
      | inr new ↦ rw new (elim (Bool-cases (any_where (is_delivery d.id) ds)) [
        | inl used ↦ rw used w
        | inr unused ↦ rw unused (record {
          ids = IsUnique-append same_id ds d (λ x y. swapped y.id x.id) w.ids unused;
          pairs = IsUnique-append same_pair ds d swap_pair w.pairs new;
          sound = All-append IsSound ds (d ∷ []) w.sound (sound, tt);
        })
      ])
    ]
  where
    swap_pair : (x y : Delivery) → same_pair x y ≡ same_pair y x
    swap_pair x y = rw (swapped y.run_id x.run_id, swapped y.channel_id x.channel_id) refl

IsWellFormed-settle :
    (d : Delivery) (ds : List Delivery)
    → IsSound d
    → IsWellFormed ds
    → IsWellFormed (settle_delivery d ds).1
unfolding settle_delivery
IsWellFormed-settle d ds sound w = record {
  ids = IsUnique-update same_id _ (outcome_of d) ds (λ x. refl) (λ x y. refl) w.ids;
  pairs = IsUnique-update same_pair _ (outcome_of d) ds (λ x. refl) (λ x y. refl) w.pairs;
  sound = All-update_where IsSound _ (outcome_of d) ds (λ x h s. sound) w.sound;
}

pub IsWellFormed-Stable : Stable (λ ds ps. IsWellFormed ds) (λ d. Unit {0})
IsWellFormed-Stable = record {
  creates = λ d ds ps opened sound w. IsWellFormed-create d ds sound w;
  opens = λ now limit ds ps w.
      All-weaken _ (λ d h. ((h.1, open_of d.state d.attempts d.next_at h.1 h.0), tt))
        (due_deliveries-All IsSound now limit ds w.sound);
  posts = λ row ds ps due w. w;
  settles = λ row row' ds ps due same sound w. IsWellFormed-settle row' ds sound w;
}

-- A pass of the dispatcher keeps the table of deliveries well-formed, whatever the channels answer
-- and whichever statements fail: at most one row for a run and a channel, one for an id, four
-- attempts at most, and a time for the next attempt on the pending rows only.
pub tick-IsWellFormed :
    (e : Env) (d : Desk e) → IsWellFormed d.deliveries → IsWellFormed (tick d).deliveries
tick-IsWellFormed e d w = (Holds-tick IsWellFormed-Stable d (record { at = w })).at
