-- ===== src/Store/Claim.antt =====
-- What `ClaimRun` answers: the oldest of the runs that wait, and no work only where none waits.
use mathlib.Core.Bool.{false≢true}
use mathlib.Core.Option.{some-injective}
use text.Mathlib.TextPositions.{eq_refl}
use restorelab.Prelude.{
  ℕ, ◌+◌, ◌≤◌, ◌≡◌, refl, sym, ap, ltb, subst, ◌∙◌, Bool, true, false, ◌&&◌, String, Option, none,
  some, List, [], ◌∷◌, All, All-weaken, arith, if◌then◌else◌,
}
use restorelab.Store.Table.{count_where, select_where, least, least_of, find_where, sorts_before}
use restorelab.Store.Table.Laws.{All-select_where, All-least, select_where-holds}
use restorelab.Store.Row.{Row, QueuedRun, is_queued, is_null, scan_queued_run}
use restorelab.Store.Queue.{
  has_id, claimable, queued_before, unleased, lease_row, take_lease, claim_run,
}
use restorelab.Store.Keyed.{IsKeyed, count-one}
use restorelab.Store.Changes.{
  Waiting, claimable-Waiting, Waiting-claimable, Rewritten, update_where-Rewritten, row-found,
}

-- The comparison of `ORDER BY queued_at` is a strict weak order.
earlier_irrefl : (nf : Bool) (a : Option ℕ) → sorts_before nf a a ≡ false
earlier_irrefl nf none = refl
earlier_irrefl nf (some a) = ground arith

earlier_asym :
    (nf : Bool) (a b : Option ℕ) → sorts_before nf a b ≡ true → sorts_before nf b a ≡ false
earlier_asym nf none none h = refl
earlier_asym nf none (some b) h = rw h refl
earlier_asym true (some a) none h = cc
earlier_asym false (some a) none h = refl
earlier_asym nf (some a) (some b) h = ground arith

earlier_trans :
    (nf : Bool) (a b c : Option ℕ)
    → sorts_before nf a b ≡ false
    → sorts_before nf b c ≡ false
    → sorts_before nf a c ≡ false
earlier_trans nf none none c h k = k
earlier_trans nf none (some b) none h k = refl
earlier_trans nf none (some b) (some c) h k = h
earlier_trans nf (some a) none none h k = h
earlier_trans true (some a) none (some c) h k = cc
earlier_trans false (some a) none (some c) h k = cc
earlier_trans nf (some a) (some b) none h k = k
earlier_trans nf (some a) (some b) (some c) h k = ground arith

abbrev NotBefore : Bool → Row → Row → Type 0
NotBefore nf m r = queued_before nf r m ≡ false

least-none : (nf : Bool) (xs : List Row) → least (queued_before nf) xs ≡ none → All (λ _. ⊥) xs
unfolding least
least-none nf [] h = tt
least-none nf (x ∷ xs) h = clash (least (queued_before nf) xs) h
  where
    clash : (o : Option Row) → least_of (queued_before nf) x o ≡ none → All (λ _. ⊥) (x ∷ xs)
    clash none e = cc
    clash (some y) e = cc

least-IsLeast :
    (nf : Bool) (xs : List Row) (m : Row)
    → least (queued_before nf) xs ≡ some m
    → All (NotBefore nf m) xs
unfolding least
least-IsLeast nf [] m h = tt
least-IsLeast nf (x ∷ xs) m h =
    pick (least (queued_before nf) xs) h (least-none nf xs) (least-IsLeast nf xs)
  where
    either :
        (y : Row) (b : Bool)
        → queued_before nf y x ≡ b
        → All (NotBefore nf y) xs
        → All (NotBefore nf (if b then y else x)) (x ∷ xs)
    either y true e k = (earlier_asym nf y.queued_at x.queued_at e, k)
    either y false e k = (
      earlier_irrefl nf x.queued_at,
      All-weaken xs (λ z n. earlier_trans nf z.queued_at y.queued_at x.queued_at n e) k,
    )

    pick :
        (o : Option Row)
        → least_of (queued_before nf) x o ≡ some m
        → (o ≡ none → All (λ _. ⊥) xs)
        → ((n : Row) → o ≡ some n → All (NotBefore nf n) xs)
        → All (NotBefore nf m) (x ∷ xs)
    pick none e k l =
        subst (λ n. All (NotBefore nf n) (x ∷ xs)) (some-injective _ _ e)
          (earlier_irrefl nf x.queued_at, All-weaken xs (λ z n. absurd n) (k refl))
    pick (some y) e k l =
        subst (λ n. All (NotBefore nf n) (x ∷ xs)) (some-injective _ _ e)
          (either y _ refl (l y refl))

-- A clause that selects a row.
All-unselected {ℓ} :
    (P : Row → Type ℓ) (p : Row → Bool) (t : List Row)
    → All P (select_where p t)
    → All (λ r. p r ≡ true → P r) t
unfolding select_where
All-unselected P p [] h = tt
All-unselected P p (r ∷ t) h =
    let (here, rest) = split (p r) refl h in (here, All-unselected P p t rest)
  where
    split :
        (b : Bool)
        → p r ≡ b
        → All P (if b then r ∷ select_where p t else select_where p t)
        → (p r ≡ true → P r) × All P (select_where p t)
    split true e k = ((λ _. k.0), k.1)
    split false e k = ((λ f. absurd (false≢true (sym e ∙ f))), k)

-- Queued no later than the other, of two runs with a time in the queue.
abbrev pub QueuedFirst : Row → Row → Type 0
QueuedFirst r x = (a b : ℕ) → r.queued_at ≡ some a → x.queued_at ≡ some b → a ≤ b

-- The answers of `ClaimRun` on a table, and the table that each leaves.
pub data ClaimSays (owner : String) (until : ℕ) (t : List Row)
    : Option QueuedRun × List Row → Type 0 where
  no_work : All (λ r. Waiting r → ⊥) t → ClaimSays owner until t (none, t)
  claimed :
      (r : Row) (t' : List Row)
      → find_where (has_id r.id) t ≡ some r
      → Waiting r
      → All (λ x. Waiting x → QueuedFirst r x) t
      → Rewritten r.id (record r { lease_owner = some owner; lease_expires_at = some until }) t t'
      → ClaimSays owner until t (some (scan_queued_run r), t')

unclaimable : (r : Row) → (claimable r ≡ true → ⊥) → Waiting r → ⊥
unclaimable r n w = n (Waiting-claimable r w)

queued_first : (nf : Bool) (r x : Row) → queued_before nf x r ≡ false → QueuedFirst r x
queued_first nf r x n a b e f =
    no_later (sym (ap (λ o. sorts_before nf o r.queued_at) f ∙ ap (sorts_before nf (some b)) e) ∙ n)
  where
    no_later : ltb b a ≡ false → a ≤ b
    no_later k = ground (arith, k)

claimable-unleased : (r : Row) → claimable r ≡ true → unleased r.id r ≡ true
claimable-unleased r c = rw (eq_refl r.id) (and_right (is_queued r.state) c)
  where
    and_right : {b : Bool} (a : Bool) → (a && b) ≡ true → b ≡ true
    and_right true k = k
    and_right false k = cc

and_left : (a b : Bool) → (a && b) ≡ true → a ≡ true
and_left true b k = refl
and_left false b k = k

-- `ClaimRun` on a table with its primary key, while no other claim is in progress. It answers that
-- there is no work only if no run waits in the queue without a worker. Else it hands out a run that
-- waits and was queued no later than any other that waits, and writes the worker and the end of its
-- lease to that one row.
pub claim_run-ClaimSays :
    (nf : Bool) (owner : String) (lease now : ℕ) (t : List Row)
    → IsKeyed t
    → ClaimSays owner (now + lease) t (claim_run nf owner lease now t)
unfolding claim_run
claim_run-ClaimSays nf owner lease now t k =
    go (least (queued_before nf) (select_where claimable t)) refl
  where
    go :
        (o : Option Row)
        → least (queued_before nf) (select_where claimable t) ≡ o
        → ClaimSays owner (now + lease) t (take_lease owner (now + lease) o t)
    go none e = no_work (
        All-weaken t unclaimable
          (All-unselected _ claimable t (least-none nf (select_where claimable t) e)))
    go (some r) e =
        let c =
          All-least (λ x. claimable x ≡ true) (queued_before nf) _ r
            (select_where-holds claimable t) e in
        let one =
          All-least (λ x. unleased x.id x ≡ true → count_where (unleased x.id) t ≡ 1)
            (queued_before nf) _ r
            (All-select_where _ claimable t
              (count-one unleased t (λ id x. and_left (has_id id x) _) k))
            e in
        let found =
          All-least (λ x. find_where (has_id x.id) t ≡ some x) (queued_before nf) _ r
            (All-select_where _ claimable t (row-found t k)) e in
        let free = (claimable-Waiting r c).free in
        rw (one (claimable-unleased r c)) (
          claimed r _ found (claimable-Waiting r c)
            (All-weaken t (λ x n w. queued_first nf r x (n (Waiting-claimable x w)))
              (All-unselected _ claimable t (least-IsLeast nf (select_where claimable t) r e)))
            (update_where-Rewritten r.id (λ x. is_null x.lease_owner)
              (lease_row owner (now + lease)) (λ x. refl) t r found (rw free refl)))
