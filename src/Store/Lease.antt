-- ===== src/Store/Lease.antt =====
-- A run is handed out at most once: a lease that was taken is never given back.
use mathlib.Core.Bool.{false≢true}
use mathlib.Core.Option.{some-injective}
use text.Mathlib.TextPositions.{eq_refl}
use restorelab.Prelude.{
  ℕ, ◌+◌, ◌≡◌, ◌≢◌, refl, sym, ap, subst, ◌∙◌, Bool, true, false, ◌&&◌, String, Option, none, some,
  List, ◌==◌, str_eq, if◌then◌else◌,
}
use restorelab.Core.Errors.{Error}
use restorelab.Store.Table.{update_where, count_where, select_where, any_where, least}
use restorelab.Store.Table.Laws.{
  All-select_where, All-least, select_where-holds, any_where-update_where, All-updated,
  any_where_self,
}
use restorelab.Store.Row.{Row, QueuedRun, is_null, is_queued, scan_queued_run}
use restorelab.Store.Queue.{
  has_id, claimable, queued_before, unleased, lease_row, take_lease, claim_run,
}
use restorelab.Store.Held.{Held, About}
use restorelab.Store.Operations.{Operation, apply_all}
use restorelab.Store.Lasting.{Lasts-apply_all}

abbrev IsClaimed : Row → Type 0
IsClaimed r = is_null r.lease_owner ≡ false

-- The run is there, and somebody has claimed it.
abbrev Taken : String → List Row → Type 0
Taken id t = Held id IsClaimed t

Taken-apply_all :
    (id : String) (text : Error → String) (ops : List Operation) (t : List Row)
    → Taken id t
    → Taken id (apply_all text ops t)
Taken-apply_all id text ops t h =
    Lasts-apply_all (λ owner notified. is_null owner ≡ false) (λ owner o n _. refl) id text ops t h

Leased-clash : (r : Row) → claimable r ≡ true → is_null r.lease_owner ≡ false → ⊥
Leased-clash r c n = false≢true (and_right (is_queued r.state) n c)
  where
    and_right : {b : Bool} (a : Bool) → b ≡ false → (a && b) ≡ true → false ≡ true
    and_right true n c = sym n ∙ c
    and_right false n c = c

take_lease-id :
    (owner : String) (until : ℕ) (r : Row) (t : List Row) (q : QueuedRun)
    → (take_lease owner until (some r) t).0 ≡ some q
    → q.id ≡ r.id
take_lease-id owner until r t q h = go (count_where (unleased r.id) t == 1) _ h
  where
    go :
        (b : Bool) (t' : List Row)
        → (let o : Option QueuedRun × List Row =
              if b then (some (scan_queued_run r), t') else (none, t) in
            o.0 ≡ some q)
        → q.id ≡ r.id
    go true _ k = ap (λ x. x.id) (sym (some-injective _ _ k))
    go false _ k = cc

claim_run-not-Taken :
    (nf : Bool) (owner : String) (lease now : ℕ) (t : List Row) (q : QueuedRun)
    → Taken q.id t
    → (claim_run nf owner lease now t).0 ≢ some q
unfolding claim_run
claim_run-not-Taken nf owner lease now t q h =
    go (least (queued_before nf) (select_where claimable t)) refl
  where
    go :
        (o : Option Row)
        → least (queued_before nf) (select_where claimable t) ≡ o
        → (take_lease owner (now + lease) o t).0 ≢ some q
    go none e k = cc
    go (some r) e k =
        Leased-clash r
          (All-least (λ x. claimable x ≡ true) (queued_before nf) _ r
            (select_where-holds claimable t) e)
          (All-least (About q.id IsClaimed) (queued_before nf) _ r
            (All-select_where (About q.id IsClaimed) claimable t h.holds) e
            (sym (take_lease-id owner (now + lease) r t q k)))

take_lease-Taken :
    (owner : String) (until : ℕ) (r : Row) (t : List Row) (q : QueuedRun)
    → any_where (has_id r.id) t ≡ true
    → (take_lease owner until (some r) t).0 ≡ some q
    → Taken r.id (take_lease owner until (some r) t).1
take_lease-Taken owner until r t q there h = go (count_where (unleased r.id) t == 1) h
  where
    now : Taken r.id (update_where (unleased r.id) (lease_row owner until) t)
    now = record {
      present = any_where-update_where (has_id r.id) _ _ t (λ x. refl) ∙ there;
      holds = All-updated (About r.id IsClaimed) _ _ t (λ x _ _. refl) (λ x u i. unselected x u i);
    }
      where
        unselected :
            (x : Row) → unleased r.id x ≡ false → x.id ≡ r.id → is_null x.lease_owner ≡ false
        unselected x u i = and_false (str_eq x.id r.id) (ap (λ j. str_eq j r.id) i ∙ eq_refl r.id) u
          where
            and_false : {b : Bool} (a : Bool) → a ≡ true → (a && b) ≡ false → b ≡ false
            and_false true e k = k
            and_false false e k = cc

    go :
        (b : Bool)
        → (let o : Option QueuedRun × List Row =
              if b
              then (
                some (scan_queued_run r),
                update_where (unleased r.id) (lease_row owner until) t,
              )
              else (none, t) in
            (o.0 ≡ some q) → Taken r.id o.1)
    go true k = now
    go false k = cc

-- A claim that hands out a run has taken it.
claim_run-Taken :
    (nf : Bool) (owner : String) (lease now : ℕ) (t : List Row) (q : QueuedRun)
    → (claim_run nf owner lease now t).0 ≡ some q
    → Taken q.id (claim_run nf owner lease now t).1
unfolding claim_run
claim_run-Taken nf owner lease now t q =
    go (least (queued_before nf) (select_where claimable t)) refl
  where
    go :
        (o : Option Row)
        → least (queued_before nf) (select_where claimable t) ≡ o
        → (take_lease owner (now + lease) o t).0 ≡ some q
        → Taken q.id (take_lease owner (now + lease) o t).1
    go none e k = cc
    go (some r) e k =
        let there =
          All-least (λ x. any_where (has_id x.id) t ≡ true) (queued_before nf) _ r
            (All-select_where _ claimable t
              (any_where_self (λ x. has_id x.id) t (λ x. eq_refl x.id)))
            e in
        subst (λ i. Taken i (take_lease owner (now + lease) (some r) t).1)
          (sym (take_lease-id owner (now + lease) r t q k))
          (take_lease-Taken owner (now + lease) r t q there k)

-- A run that a claim has handed out is never handed out again, by no worker, at no time, and whatever
-- the API, the scheduler, the workers and the reconciliation write to the queue in between.
pub claim_run-once :
    (text : Error → String) (nf : Bool) (owner : String) (lease now : ℕ) (t : List Row)
    (q : QueuedRun) (ops : List Operation) (owner' : String) (lease' now' : ℕ) (q' : QueuedRun)
    → (claim_run nf owner lease now t).0 ≡ some q
    → q'.id ≡ q.id
    → (claim_run nf owner' lease' now' (apply_all text ops (claim_run nf owner lease now t).1)).0
      ≢ some q'
claim_run-once text nf owner lease now t q ops owner' lease' now' q' h same =
    claim_run-not-Taken nf owner' lease' now' _ q' (
      subst (λ i. Taken i (apply_all text ops (claim_run nf owner lease now t).1)) (sym same)
        (Taken-apply_all q.id text ops _ (claim_run-Taken nf owner lease now t q h)))
