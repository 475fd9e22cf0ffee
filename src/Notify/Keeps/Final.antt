-- ===== src/Notify/Keeps/Final.antt =====
-- A delivery that is settled stays as it is, and is not posted again.
use mathlib.Core.Bool.{false≢true}
use restorelab.Prelude.{
  ℕ, ◌≡◌, ◌≢◌, refl, sym, ap, ◌∙◌, Bool, true, false, String, List, [], ◌∷◌, All, All-append,
  Bool-cases, inl, inr, str_eq, eq_iff,
}
use restorelab.Store.Table.{count_where, any_where}
use restorelab.Store.Table.Laws.{All-update_where, any_where-update_where, any_where-append}
use restorelab.Store.Deliveries.{
  DeliveryState, Delivery, is_pair, is_delivery, outcome_of, create_delivery, settle_delivery,
}
use restorelab.Notify.Dispatcher.{Env, Desk}
use restorelab.Notify.Attempt.{tick}
use restorelab.Notify.Keeps.{IsOpen, Stable, Holds-tick}
use restorelab.Notify.Keeps.Invariant.{IsWellFormed, IsWellFormed-Stable, due_deliveries-All}

abbrev IsAs : Delivery → Delivery → Type 0
IsAs x d = str_eq d.id x.id ≡ true → d ≡ x

-- The table holds `x`, and no other row under its id.
pub record Keeps (x : Delivery) (ds : List Delivery) : Type 0 where
  pub same : All (IsAs x) ds
  pub present : any_where (is_delivery x.id) ds ≡ true

abbrev pub times_posted : String → List String → ℕ
times_posted id posted = count_where (λ p. str_eq p id) posted

absent_other :
    (q p : Delivery → Bool) (ds : List Delivery)
    → any_where q ds ≡ true
    → any_where p ds ≡ false
    → q ≡ p
    → ⊥
absent_other q p ds h k e = false≢true (sym k ∙ sym (ap (λ r. any_where r ds) e) ∙ h)

Keeps-create : (x d : Delivery) (ds : List Delivery) → Keeps x ds → Keeps x (create_delivery d ds).1
unfolding create_delivery
Keeps-create x d ds k = elim (Bool-cases (any_where (is_pair d.run_id d.channel_id) ds)) [
  | inl taken ↦ rw taken k
  | inr new ↦ rw new (elim (Bool-cases (any_where (is_delivery d.id) ds)) [
    | inl used ↦ rw used k
    | inr unused ↦ rw unused (record {
      same = All-append (IsAs x) ds (d ∷ []) k.same (
        (λ h. absurd (
            absent_other (is_delivery x.id) (is_delivery d.id) ds k.present unused
              (ap is_delivery (sym ((eq_iff d.id x.id).0 h))))),
        tt,
      );
      present = any_where-append (is_delivery x.id) ds (d ∷ []) k.present;
    })
  ])
]

Keeps-settle :
    (x row : Delivery) (ds : List Delivery)
    → str_eq row.id x.id ≡ false
    → Keeps x ds
    → Keeps x (settle_delivery row ds).1
unfolding settle_delivery
Keeps-settle x row ds other k = record {
  same =
      All-update_where (IsAs x) _ (outcome_of row) ds
        (λ d h was same. absurd (
          false≢true (sym other ∙ ap (λ i. str_eq i x.id) (sym ((eq_iff d.id row.id).0 h)) ∙ same)))
        k.same;
  present = any_where-update_where (is_delivery x.id) _ (outcome_of row) ds (λ d. refl) ∙ k.present;
}

-- The predicate that a pass keeps.
record Final (x : Delivery) (n : ℕ) (ds : List Delivery) (ps : List String) : Type 0 where
  kept : Keeps x ds
  count : times_posted x.id ps ≡ n
  formed : IsWellFormed ds

Final-Stable :
    (x : Delivery) (n : ℕ)
    → x.state ≢ DeliveryState.pending
    → Stable (Final x n) (λ row. str_eq row.id x.id ≡ false)
unfolding count_where
Final-Stable x n settled = record {
  creates = λ d ds ps opened sound h. record {
    kept = Keeps-create x d ds h.kept;
    count = h.count;
    formed = IsWellFormed-Stable.creates d ds ps opened sound h.formed;
  };
  opens = λ now limit ds ps h.
      both _ (IsWellFormed-Stable.opens now limit ds ps h.formed)
        (due_deliveries-All (IsAs x) now limit ds h.kept.same);
  posts =
      λ row ds ps other h. record { kept = h.kept; count = rw other h.count; formed = h.formed };
  settles = λ row row' ds ps other same sound h. record {
    kept = Keeps-settle x row' ds (rw same other) h.kept;
    count = h.count;
    formed = IsWellFormed-Stable.settles row row' ds ps tt same sound h.formed;
  };
}
  where
    differs : (d : Delivery) → IsAs x d → d.state ≡ DeliveryState.pending → str_eq d.id x.id ≡ false
    differs d was p = elim (Bool-cases (str_eq d.id x.id)) [
      | inl h ↦ absurd (settled (sym (ap (λ y. y.state) (was h)) ∙ p))
      | inr h ↦ h
    ]

    both :
        (ds : List Delivery)
        → All {0, 0} (λ d. IsOpen d × Unit {0}) ds
        → All {0, 0} (λ d. IsAs x d × (d.state ≡ DeliveryState.pending)) ds
        → All {0, 0} (λ d. IsOpen d × (str_eq d.id x.id ≡ false)) ds
    both [] h k = tt
    both (d ∷ ds) h k = ((h.0.0, differs d k.0.0 k.0.1), both ds h.1 k.1)

-- A delivery that was sent or given up is final: a pass of the dispatcher leaves its row as it is and
-- does not post its message again; on a well-formed table.
pub tick-final :
    (e : Env) (d : Desk e) (x : Delivery)
    → IsWellFormed d.deliveries
    → Keeps x d.deliveries
    → x.state ≢ DeliveryState.pending
    → Keeps x (tick d).deliveries × (times_posted x.id (tick d).posted ≡ times_posted x.id d.posted)
tick-final e d x formed kept settled =
    let h =
      Holds-tick (Final-Stable x _ settled) d
        (record { at = record { kept = kept; count = refl; formed = formed } }) in
    (h.at.kept, h.at.count)
