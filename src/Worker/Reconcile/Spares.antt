-- ===== src/Worker/Reconcile/Spares.antt =====
-- A reconciliation touches the interrupted runs only.
use restorelab.Prelude.{
  ◌≡◌, refl, ap, ◌∙◌, Bool, true, false, ◌&&◌, ◌⊎◌, inl, inr, String, Option, none, some, List, [],
  ◌∷◌, All, All-weaken, Bool-cases, str_eq, eq_iff, if◌then◌else◌,
}
use restorelab.Core.Run.{RunState}
use restorelab.Store.Table.{update_where, select_where, find_where}
use restorelab.Store.Row.{Row, QueuedRun, or_empty}
use restorelab.Store.Queue.{has_id, set_state, set_run_error, finish_lease, stale_runs}
use restorelab.Worker.Reconcile.{
  Site, Shop, statement, settle, after_delete, remove, settle_row, settle_interrupted, settle_all,
  reconcile, interrupted,
}

-- The rows of a run.
abbrev rows_of : {e : Site} → String → Shop e → List Row
rows_of id s = select_where (has_id id) s.runs

module _ (id other : String) (differ : str_eq other id ≡ false) where
  select-update :
      (p : Row → Bool) (f : Row → Row) (t : List Row)
      → ((r : Row) → p r ≡ true → str_eq r.id other ≡ true)
      → ((r : Row) → (f r).id ≡ r.id)
      → select_where (has_id id) (update_where p f t) ≡ select_where (has_id id) t
  unfolding select_where update_where
  select-update p f [] sub same = refl
  select-update p f (r ∷ t) sub same =
      let rest = select-update p f t sub same in
      elim (Bool-cases (p r)) [
        | inl hit ↦
            let miss = ap (λ i. str_eq i id) ((eq_iff r.id other).0 (sub r hit)) ∙ differ in
            rw (hit, same r, miss) rest
        | inr spared ↦ rw (spared, rest) refl
      ]

both_left : (a b : Bool) → (a && b) ≡ true → a ≡ true
both_left true b h = refl
both_left false b h = h

module _ {e : Site} (id other : String) (differ : str_eq other id ≡ false) where
  statement-spares :
      (f : List Row → List Row) (s : Shop e)
      → ((t : List Row) → select_where (has_id id) (f t) ≡ select_where (has_id id) t)
      → rows_of id (statement f s) ≡ rows_of id s
  unfolding statement
  statement-spares f s spares = either (e.fails s.world).0
    where
      either : (b : Bool) → select_where (has_id id) (if b then s.runs else f s.runs) ≡ rows_of id s
      either true = refl
      either false = spares s.runs

  settle-spares :
      (st : RunState) (reason : String) (s : Shop e)
      → rows_of id (settle other st reason s) ≡ rows_of id s
  unfolding settle set_state set_run_error finish_lease
  settle-spares st reason s =
      statement-spares (finish_lease other) _
        (λ t. select-update id other differ _ _ t (λ r h. h) (λ r. refl))
      ∙ statement-spares (set_run_error other reason) _
          (λ t. select-update id other differ _ _ t (λ r h. h) (λ r. refl))
      ∙ statement-spares (set_state other st) s
          (λ t. select-update id other differ _ _ t (λ r h. both_left _ _ h) (λ r. refl))

module _ {e : Site} (id : String) (q : QueuedRun) (differ : str_eq q.id id ≡ false) where
  after_delete-spares :
      (run : Row) (o : Option String) (s : Shop e)
      → rows_of id (after_delete q run o s) ≡ rows_of id s
  after_delete-spares run none s = settle-spares id q.id differ _ _ s
  after_delete-spares run (some x) s = settle-spares id q.id differ _ _ s

  remove-spares :
      (run : Row) (o : Option String) (s : Shop e) → rows_of id (remove q run o s) ≡ rows_of id s
  remove-spares run (some x) s = settle-spares id q.id differ _ _ s
  remove-spares run none s = after_delete-spares run _ _

  settle_row-spares : (o : Option Row) (s : Shop e) → rows_of id (settle_row q o s) ≡ rows_of id s
  settle_row-spares none s = refl
  settle_row-spares (some run) s = named (str_eq (or_empty run.temp_workload_id) "")
    where
      named :
          (b : Bool)
          → rows_of id (
              if b
              then settle q.id RunState.failed interrupted s
              else remove q run (e.unavailable q.provider_id) s)
            ≡ rows_of id s
      named true = settle-spares id q.id differ _ _ s
      named false = remove-spares run _ s

  settle_interrupted-spares : (s : Shop e) → rows_of id (settle_interrupted q s) ≡ rows_of id s
  unfolding settle_interrupted
  settle_interrupted-spares s = read (e.fails s.world).0
    where
      read :
          (b : Bool)
          → rows_of {e = e} id (
              let s' : Shop e = record s { world = (e.fails s.world).1 } in
              if b then s' else settle_row q (find_where (has_id q.id) s.runs) s')
            ≡ rows_of id s
      read true = refl
      read false =
          settle_row-spares (find_where (has_id q.id) s.runs)
            (record s { world = (e.fails s.world).1 })

-- The sweep skips the run, or it is not the one.
abbrev Aside : Site → String → QueuedRun → Type 0
Aside e id q = (e.in_flight q.id ≡ true) ⊎ (str_eq q.id id ≡ false)

settle_all-spares :
    {e : Site} (id : String) (qs : List QueuedRun) (s : Shop e)
    → All (Aside e id) qs
    → rows_of id (settle_all qs s) ≡ rows_of id s
unfolding settle_all
settle_all-spares id [] s h = refl
settle_all-spares {e} id (q ∷ qs) s h = settle_all-spares id qs _ h.1 ∙ skipped h.0
  where
    skipped :
        Aside e id q
        → rows_of id (if e.in_flight q.id then s else settle_interrupted q s) ≡ rows_of id s
    skipped (inl busy) = rw busy refl
    skipped (inr other) = elim (Bool-cases (e.in_flight q.id)) [
      | inl busy ↦ rw busy refl
      | inr free ↦ rw free (settle_interrupted-spares id q other s)
    ]

asides :
    (e : Site) (id : String) (qs : List QueuedRun) → e.in_flight id ≡ true → All (Aside e id) qs
asides e id [] h = tt
asides e id (q ∷ qs) h = (
  elim (Bool-cases (str_eq q.id id)) [
    | inl same ↦ inl (ap e.in_flight ((eq_iff q.id id).0 same) ∙ h)
    | inr other ↦ inr other
  ],
  asides e id qs h,
)

-- A sweep leaves alone the runs that this worker is executing, however their leases look, and the runs
-- that are not interrupted: it changes no row of such a run, whichever statements fail.
pub reconcile-spares :
    (e : Site) (id : String) (s : Shop e)
    → (e.in_flight id ≡ true)
      ⊎ All (λ q. str_eq q.id id ≡ false) (stale_runs e.nulls_first (e.now s.world).0 s.runs)
    → select_where (has_id id) (reconcile s).runs ≡ select_where (has_id id) s.runs
unfolding reconcile
reconcile-spares e id s h = read (e.fails (e.now s.world).1).0
  where
    stale : List QueuedRun
    stale = stale_runs e.nulls_first (e.now s.world).0 s.runs

    aside :
        (e.in_flight id ≡ true) ⊎ All (λ q. str_eq q.id id ≡ false) stale → All (Aside e id) stale
    aside (inl busy) = asides e id stale busy
    aside (inr none_of) = All-weaken stale (λ q other. inr other) none_of

    read :
        (b : Bool)
        → rows_of {e = e} id (
            let s' : Shop e = record s { world = (e.fails (e.now s.world).1).1 } in
            if b then s' else settle_all stale s')
          ≡ rows_of id s
    read true = refl
    read false = settle_all-spares id stale _ (aside h)
