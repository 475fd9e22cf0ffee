-- ===== src/Store/Held.antt =====
-- What holds of the run of an id, through the statements that change the table.
use mathlib.Core.Bool.{false≢true}
use restorelab.Prelude.{
  ◌≡◌, refl, sym, ap, subst, ◌∙◌, Bool, true, false, String, List, [], ◌∷◌, All, All-append, str_eq,
}
use restorelab.Store.Table.{update_where, any_where}
use restorelab.Store.Table.Laws.{All-update_where, any_where-update_where, any_where-append}
use restorelab.Store.Row.{Row}
use restorelab.Store.Queue.{has_id, inserted, insert_row}
use restorelab.Store.Operations.{or_keep}

abbrev pub About : String → (Row → Type 0) → Row → Type 0
About id P r = r.id ≡ id → P r

pub record Held (id : String) (P : Row → Type 0) (t : List Row) : Type 0 where
  pub present : any_where (has_id id) t ≡ true
  pub holds : All (About id P) t

module _ {id : String} {P : Row → Type 0} where
  pub Held-update :
      (p : Row → Bool) (f : Row → Row) (t : List Row)
      → ((r : Row) → (f r).id ≡ r.id)
      → ((r : Row) → p r ≡ true → P r → P (f r))
      → Held id P t
      → Held id P (update_where p f t)
  Held-update p f t same keeps h = record {
    present =
        any_where-update_where (has_id id) p f t (λ r. ap (λ i. str_eq i id) (same r)) ∙ h.present;
    holds =
        All-update_where (About id P) p f t (λ r c l i. keeps r c (l (sym (same r) ∙ i))) h.holds;
  }

  Held-inserted :
      (r : Row) (t : List Row) (b : Bool)
      → any_where (has_id r.id) t ≡ b
      → Held id P t
      → Held id P (or_keep (inserted b r t) t)
  Held-inserted r t true q h = h
  Held-inserted r t false q h = record {
    present = any_where-append (has_id id) t (r ∷ []) h.present;
    holds = All-append (About id P) t (r ∷ []) h.holds (
      (λ i.
          absurd
            (false≢true (sym q ∙ subst (λ j. any_where (has_id j) t ≡ true) (sym i) h.present))),
      tt,
    );
  }

  pub Held-insert_row :
      (r : Row) (t : List Row) → Held id P t → Held id P (or_keep (insert_row r t) t)
  unfolding insert_row
  Held-insert_row r t h = Held-inserted r t _ refl h
