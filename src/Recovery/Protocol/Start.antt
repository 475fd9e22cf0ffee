-- ===== src/Recovery/Protocol/Start.antt =====
-- The start of the restored workload, and all that comes behind it, against the protocol.
use text.Mathlib.TextPositions.{eq_refl}
use restorelab.Prelude.{
  ℕ, zero, suc, ◌≡◌, refl, ap, ◌∙◌, ◌⊎◌, inl, inr, Bool, true, false, String, Option, none, some,
  ◌∷◌, is_some,
}
use restorelab.Core.Errors.{Error, ProviderError, is_retryable}
use restorelab.Plan.{Plan}
use restorelab.Recovery.Engine.{
  Engine, Session, Outcome, Entry, M, ok, err, panic, out_of_fuel, outcome, is_answered, call,
  or_fail,
}
use restorelab.Recovery.Steps.Retry.{retry, retry_more, unless_interrupted}
use restorelab.Recovery.Steps.Restore.{start_workload}
use restorelab.Recovery.Protocol.{Phase, started, on_start, phase}
use restorelab.Recovery.Protocol.Silent.{
  Silent, Calm, Same, names_self, Silent-end, Silent-begin, Silent-raise, Silent-bind, Silent-sleep,
}
use restorelab.Recovery.Protocol.Restore.{ready, ready-Calm, ready-Fits, Settled, At-Settled}
use restorelab.Recovery.Protocol.Triple.{
  Ends, Triple, Triple-bind, Triple-on_error, Triple-if, At, Same-At,
}

-- Between the hardening and the cleanup: ready to start, or asked to.
abbrev pub Up : {e : Engine} → String → Session e → Type 0
Up {e} id s = At (ready (is_some e.finalize_restore) id) true id id s ⊎ At (started id) true id id s

pub Up-Settled : {e : Engine} (id : String) (s : Session e) → Up id s → Settled s
Up-Settled {e} id s (inl h) = At-Settled (ready-Fits (is_some e.finalize_restore) id) s h
Up-Settled id s (inr h) = At-Settled (refl, refl, refl) s h

Ends-both :
    {e : Engine} {A : Type 0} (P : Session e → Type 0) (r : Outcome A) (s : Session e)
    → P s
    → Ends (λ _. P) P r s
Ends-both P (ok a) s h = h
Ends-both P (err x) s h = h
Ends-both P (panic x) s h = h
Ends-both P out_of_fuel s h = h

module _ {e : Engine} (id : String) where
  Up-Calm : (s : Session e) → Up id s → Calm (phase s) s.run.temp_workload_id
  Up-Calm s (inl h) = rw (h.stands, h.said_is) (ready-Calm (is_some e.finalize_restore) id)
  Up-Calm s (inr h) = rw (h.stands, h.said_is) (names_self id _)

  Same-Up : {s t : Session e} → Same s t → Up id s → Up id t
  Same-Up p (inl h) = inl (Same-At p h)
  Same-Up p (inr h) = inr (Same-At p h)

  pub Silent-Up : {A : Type 0} {m : M e A} → Silent m → Triple (Up id) m (λ _. Up id) (Up id)
  Silent-Up {m = m} k = record {
    at = λ s h. let (r, s') = m s in Ends-both (Up id) r s' (Same-Up (k.at s (Up-Calm s h)) h);
  }

module _ {e : Engine} {A : Type 0} (id : String) where
  unless-Up :
      (x : Error) (m : M e A) (i : Option ProviderError)
      → Triple (Up id) m (λ _. Up id) (Up id)
      → Triple (Up id) (unless_interrupted x m i) (λ _. Up id) (Up id)
  unless-Up x m none k = k
  unless-Up x m (some i) k = Silent-Up id (Silent-raise x)

  -- An action that keeps `Up` may be retried.
  retry_more-Up :
      (more backoff : ℕ) (fn : M e A)
      → Triple (Up id) fn (λ _. Up id) (Up id)
      → Triple (Up id) (retry_more more backoff fn) (λ _. Up id) (Up id)
  unfolding retry_more
  retry_more-Up zero backoff fn k = k
  retry_more-Up (suc more) backoff fn k =
      let again = retry_more-Up more backoff fn k in
      Triple-on_error k
        (λ x.
          Triple-if (is_retryable x)
            (λ _. Triple-bind (Silent-Up id (Silent-sleep backoff)) λ i. unless-Up x _ i again)
            (λ _. Silent-Up id (Silent-raise x)))
        (λ t h. h)

  retry-Up :
      (attempts backoff : ℕ) (fn : M e A)
      → Triple (Up id) fn (λ _. Up id) (Up id)
      → Triple (Up id) (retry attempts backoff fn) (λ _. Up id) (Up id)
  unfolding retry
  retry-Up attempts backoff fn k = retry_more-Up _ backoff fn k

start-ready :
    (id : String) (hardens : Bool) (ph : Phase)
    → ph ≡ ready hardens id
    → on_start hardens id ph ≡ started id
start-ready id true ph p = rw p (names_self id (started id))
start-ready id false ph p = rw (p, eq_refl)

module _ {e : Engine} (id : String) where
  start_entry-Up :
      (done : Bool) (w : e.World) (s : Session e)
      → Up id s
      → Up id (record s { world = w; trace = Entry.start id done ∷ s.trace })
  start_entry-Up done w s (inl h) = inr (record {
    stands = start-ready id (is_some e.finalize_restore) _ h.stands;
    needs = h.needs;
    temp_is = h.temp_is;
    said_is = h.said_is;
  })
  start_entry-Up done w s (inr h) = inr (record {
    stands = ap (on_start (is_some e.finalize_restore) id) h.stands ∙ names_self id (started id);
    needs = h.needs;
    temp_is = h.temp_is;
    said_is = h.said_is;
  })

  start_call-Up :
      Triple {e = e}
        (Up id)
        (call (λ r. Entry.start id (is_answered r)) (e.start id))
        (λ _. Up id)
        (Up id)
  unfolding call
  start_call-Up = record {
    at = λ s h.
        let (r, w) = e.start id s.world in
        Ends-both (Up id) (outcome r) _ (start_entry-Up (is_answered r) w s h);
  }

  pub start-Triple : (p : Plan) → Triple {e = e} (Up id) (start_workload p id) (λ _. Up id) (Up id)
  unfolding start_workload or_fail
  start-Triple p = Triple-bind (Silent-Up id (Silent-begin _ _)) λ index.
      Triple-if p.startup.skip (λ _. Silent-Up id (Silent-end _ _ _ _ _))
        (λ _.
          Triple-bind
            (Triple-on_error (retry-Up id _ _ _ start_call-Up)
              (λ x. Silent-Up id (Silent-bind _ _ (Silent-end _ _ _ _ _) λ _. Silent-raise x))
              (λ t h. h))
            λ _. Silent-Up id (Silent-end _ _ _ _ _))
