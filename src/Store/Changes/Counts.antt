-- ===== src/Store/Changes/Counts.antt =====
-- How many rows a statement on one row affects.
use mathlib.Core.Option.{some-injective}
use restorelab.Prelude.{
  suc, ◌≡◌, refl, ap, ◌∙◌, Bool, true, false, ◌&&◌, String, none, some, List, [], ◌∷◌, arith,
  str_eq, eq_iff, if◌then◌else◌,
}
use restorelab.Store.Table.{update_where, count_where, find_where}
use restorelab.Store.Row.{Row}
use restorelab.Store.Queue.{has_id}
use restorelab.Store.Keyed.{IsKeyed, count-none}

module _ {ℓ} {A : Type ℓ} where
  pub update-none :
      (p : A → Bool) (f : A → A) (xs : List A) → count_where p xs ≡ 0 → update_where p f xs ≡ xs
  unfolding count_where update_where
  update-none p f [] h = refl
  update-none p f (x ∷ xs) h = split (p x) h (update-none p f xs)
    where
      split :
          (b : Bool)
          → (if b then suc (count_where p xs) else count_where p xs) ≡ 0
          → (count_where p xs ≡ 0 → update_where p f xs ≡ xs)
          → (if b then f x else x) ∷ update_where p f xs ≡ x ∷ xs
      split true k ih = absurd (omega (arith, k))
      split false k ih = ap (λ ys. x ∷ ys) (ih k)

abbrev pub both : String → (Row → Bool) → Row → Bool
both id p r = has_id id r && p r

pub both-left : (id : String) (p : Row → Bool) (r : Row) → both id p r ≡ true → has_id id r ≡ true
both-left id p r h = go (has_id id r) (p r) h
  where
    go : (a b : Bool) → (a && b) ≡ true → a ≡ true
    go true b k = refl
    go false b k = k

-- A statement on the row of an id affects one row or none, as its clause says of that row.
pub count-found :
    (id : String) (p : Row → Bool) (t : List Row) (r : Row)
    → IsKeyed t
    → find_where (has_id id) t ≡ some r
    → count_where (both id p) t ≡ (if p r then 1 else 0)
unfolding count_where find_where
count-found id p [] r k h = cc
count-found id p (x ∷ t) r k h = split (has_id id x) refl h (count-found id p t r k.1)
  where
    rest-none : has_id id x ≡ true → count_where (both id p) t ≡ 0
    rest-none e =
        count-none (both id p) (has_id x.id) t k.0
          λ y b. ap (λ i. str_eq y.id i) ((eq_iff x.id id).0 e) ∙ both-left id p y b

    split :
        (b : Bool)
        → has_id id x ≡ b
        → (if b then some x else find_where (has_id id) t) ≡ some r
        → (find_where (has_id id) t ≡ some r → count_where (both id p) t ≡ (if p r then 1 else 0))
        → (if b && p x then suc (count_where (both id p) t) else count_where (both id p) t)
          ≡ (if p r then 1 else 0)
    split true e f ih = rw (rest-none e, some-injective _ _ f) refl
    split false e f ih = ih f

-- No statement finds a row where none has the id, or where its clause does not hold of the row.
pub count-missed :
    (id : String) (p : Row → Bool) (t : List Row)
    → find_where (has_id id) t ≡ none
    → count_where (both id p) t ≡ 0
unfolding count_where find_where
count-missed id p [] f = refl
count-missed id p (x ∷ t) f = split (has_id id x) f (count-missed id p t)
  where
    split :
        (b : Bool)
        → (if b then some x else find_where (has_id id) t) ≡ none
        → (find_where (has_id id) t ≡ none → count_where (both id p) t ≡ 0)
        → (if b && p x then suc (count_where (both id p) t) else count_where (both id p) t) ≡ 0
    split true e ih = cc
    split false e ih = ih e
