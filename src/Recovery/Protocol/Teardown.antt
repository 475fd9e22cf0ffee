-- ===== src/Recovery/Protocol/Teardown.antt =====
-- The cleanup against the protocol: stop, then one delete.
use text.Mathlib.TextPositions.{eq_refl}
use restorelab.Prelude.{
  ℕ, zero, suc, ◌≡◌, refl, ap, ◌∙◌, ◌⊎◌, inl, inr, Bool, true, false, String, Option, none, some,
  ◌∷◌, if◌then◌else◌,
}
use restorelab.Core.Errors.{Error, ProviderError, is_retryable}
use restorelab.Core.Run.{RunState, StepName}
use restorelab.Recovery.Engine.{
  Engine, Session, Reply, Outcome, Entry, M, ok, err, panic, out_of_fuel, answered, refused,
  crashed, outcome, is_answered, ◌>>=◌, pure, raise, call, gets, modify_run, clock, emit_event,
  begin_step, end_step,
}
use restorelab.Recovery.Steps.Retry.{retry, retry_more, unless_interrupted}
use restorelab.Recovery.Cleanup.{
  stop_quietly, delete_once, confirm_removal, report_orphan, after_delete, destroy,
}
use restorelab.Recovery.Protocol.{
  Phase, restored, hardened, unhardened, started, doomed, removed, orphaned, on_emit, on_stop,
  on_delete, phase,
}
use restorelab.Recovery.Protocol.Silent.{Calm, names_self, Silent-raise, Silent-sleep}
use restorelab.Recovery.Protocol.Triple.{
  Ends, Triple, Triple-bind, Triple-on_error, Triple-if, At, Silent-Triple,
}
use restorelab.Recovery.Protocol.Contract.{
  Contract, Contract-bind, Contract-on_error, Contract-weaken, Triple-Contract,
}

-- The phases from which a created workload is torn down.
pub data IsLive (id : String) : Phase → Type 0 where
  live_restored : IsLive id (restored id)
  live_hardened : IsLive id (hardened id)
  live_unhardened : IsLive id (unhardened id)
  live_started : IsLive id (started id)

pub IsLive-Calm : (id : String) {ph : Phase} → IsLive id ph → Calm ph id
IsLive-Calm id live_restored = names_self id _
IsLive-Calm id live_hardened = names_self id _
IsLive-Calm id live_unhardened = names_self id _
IsLive-Calm id live_started = names_self id _

-- A workload that may be stopped, or has been asked to.
pub data CanStop (id : String) : Phase → Type 0 where
  live : {ph : Phase} → IsLive id ph → CanStop id ph
  again : CanStop id (doomed id)

stop-doomed : (id : String) (ph : Phase) → CanStop id ph → on_stop id ph ≡ doomed id
stop-doomed id _ (live live_restored) = names_self id _
stop-doomed id _ (live live_hardened) = names_self id _
stop-doomed id _ (live live_unhardened) = names_self id _
stop-doomed id _ (live live_started) = names_self id _
stop-doomed id _ again = names_self id _

module _ {e : Engine} (id : String) where
  Ends-one :
      {A : Type 0} (P : Session e → Type 0) (r : Outcome A) (s : Session e)
      → P s
      → Ends (λ _. P) P r s
  Ends-one P (ok a) s h = h
  Ends-one P (err x) s h = h
  Ends-one P (panic x) s h = h
  Ends-one P out_of_fuel s h = h

  stop_call-Triple :
      (ph : Phase)
      → CanStop id ph
      → Triple {e = e}
          (At ph true id id)
          (call (λ r. Entry.stop id (is_answered r)) (e.stop id))
          (λ _. At (doomed id) true id id)
          (At (doomed id) true id id)
  unfolding call
  stop_call-Triple ph can = record {
    at = λ s h.
        let (r, w) = e.stop id s.world in
        Ends-one (At (doomed id) true id id) (outcome r) _ (record {
          stands = ap (on_stop id) h.stands ∙ stop-doomed id ph can;
          needs = h.needs;
          temp_is = h.temp_is;
          said_is = h.said_is;
        });
  }

  unless-doomed :
      {A : Type 0} (x : Error) (m : M e A) (i : Option ProviderError)
      → Triple
          (At (doomed id) true id id)
          m
          (λ _. At (doomed id) true id id)
          (At (doomed id) true id id)
      → Triple
          (At (doomed id) true id id)
          (unless_interrupted x m i)
          (λ _. At (doomed id) true id id)
          (At (doomed id) true id id)
  unless-doomed x m none k = k
  unless-doomed x m (some i) k = Silent-Triple (Silent-raise x) (names_self id _)

  stop_more-Triple :
      (more backoff : ℕ) (ph : Phase)
      → CanStop id ph
      → Triple {e = e}
          (At ph true id id)
          (retry_more more backoff (call (λ r. Entry.stop id (is_answered r)) (e.stop id)))
          (λ _. At (doomed id) true id id)
          (At (doomed id) true id id)
  unfolding retry_more
  stop_more-Triple zero backoff ph can = stop_call-Triple ph can
  stop_more-Triple (suc more) backoff ph can =
      let rest = stop_more-Triple more backoff (doomed id) again in
      Triple-on_error (stop_call-Triple ph can)
        (λ x.
          Triple-if (is_retryable x)
            (λ _.
              Triple-bind (Silent-Triple (Silent-sleep backoff) (names_self id _))
                λ i. unless-doomed x _ i rest)
            (λ _. Silent-Triple (Silent-raise x) (names_self id _)))
        (λ t h. h)

  stop_retry-Triple :
      (attempts backoff : ℕ) (ph : Phase)
      → CanStop id ph
      → Triple {e = e}
          (At ph true id id)
          (retry attempts backoff (call (λ r. Entry.stop id (is_answered r)) (e.stop id)))
          (λ _. At (doomed id) true id id)
          (At (doomed id) true id id)
  unfolding retry
  stop_retry-Triple attempts backoff ph can = stop_more-Triple _ backoff ph can

  -- No error of the stop gets out.
  stop_quietly-Contract :
      (ph : Phase)
      → CanStop id ph
      → Contract {e = e}
          (At ph true id id)
          (stop_quietly id)
          (λ _. At (doomed id) true id id)
          (λ x s. ⊥)
          (At (doomed id) true id id)
  unfolding stop_quietly pure
  stop_quietly-Contract ph can =
      Contract-on_error
        (Triple-Contract (stop_retry-Triple _ _ ph can) (λ a t h. h) (λ x t h. h) (λ t h. h))
        (λ x. record { at = λ s h. h })

  -- Whether the delete was answered is what `delete_once` returns.
  abbrev Deleted : Option Error → Session e → Type 0
  Deleted none = At (removed id) true id id
  Deleted (some x) = At (orphaned id) true id id

  delete_call-Triple :
      Triple {e = e}
        (At (doomed id) true id id)
        (call (λ r. Entry.delete id (is_answered r)) (e.delete id))
        (λ _. At (removed id) true id id)
        (At (orphaned id) true id id)
  unfolding call
  delete_call-Triple = record { at = λ s h. let (r, w) = e.delete id s.world in go r w s h }
    where
      moved :
          (done : Bool) (ph : Phase)
          → ph ≡ doomed id
          → on_delete id done ph ≡ (if done then removed id else orphaned id)
      moved done ph p = rw (p, eq_refl)

      go :
          (r : Reply (Unit {0})) (w : e.World) (s : Session e)
          → At (doomed id) true id id s
          → Ends
              (λ _. At (removed id) true id id)
              (At (orphaned id) true id id)
              (outcome r)
              (record s { world = w; trace = Entry.delete id (is_answered r) ∷ s.trace })
      go (answered j) w s h = record {
        stands = moved true _ h.stands;
        needs = h.needs;
        temp_is = h.temp_is;
        said_is = h.said_is;
      }
      go (refused x) w s h = record {
        stands = moved false _ h.stands;
        needs = h.needs;
        temp_is = h.temp_is;
        said_is = h.said_is;
      }
      go (crashed x) w s h = record {
        stands = moved false _ h.stands;
        needs = h.needs;
        temp_is = h.temp_is;
        said_is = h.said_is;
      }

  delete_once-Contract :
      Contract {e = e}
        (At (doomed id) true id id)
        (delete_once id)
        Deleted
        (λ x s. ⊥)
        (At (orphaned id) true id id)
  unfolding delete_once pure
  delete_once-Contract =
      Contract-on_error
        (Contract-bind (Triple-Contract delete_call-Triple (λ a t h. h) (λ x t h. h) (λ t h. h))
          λ _. record { at = λ s h. h })
        (λ x. record { at = λ s h. h })

  -- What a finished cleanup leaves on the run record.
  pub record Removed (graded : RunState) (s : Session e) : Type 0 where
    pub removed_at : phase s ≡ removed id
    pub done : s.run.cleanup_done ≡ true
    pub graded_state : s.run.state ≡ graded

  pub record Orphaned (x : Error) (s : Session e) : Type 0 where
    pub orphaned_at : phase s ≡ orphaned id
    pub left : s.run.cleanup_done ≡ false
    pub alarm_state : s.run.state ≡ RunState.cleanup_failed
    pub alarm : s.run.err ≡ some x

  confirm_removal-Contract :
      (graded : RunState) (index : ℕ)
      → Contract {e = e}
          (At (removed id) true id id)
          (confirm_removal graded index)
          (λ _. Removed graded)
          (λ x s. ⊥)
          (λ s. ⊥)
  unfolding confirm_removal ◌>>=◌ modify_run end_step clock emit_event
  confirm_removal-Contract graded index = record {
    at = λ s h. record {
      removed_at = ap (on_emit s.run.temp_workload_id) h.stands ∙ rw h.said_is (names_self id _);
      done = refl;
      graded_state = refl;
    };
  }

  report_orphan-Contract :
      (node : String) (index : ℕ) (x : Error)
      → Contract {e = e}
          (At (orphaned id) true id id)
          (report_orphan id node index x)
          (λ _ s. ⊥)
          Orphaned
          (λ s. ⊥)
  unfolding report_orphan ◌>>=◌ modify_run end_step clock emit_event raise
  report_orphan-Contract node index x = record {
    at = λ s h. record {
      orphaned_at = ap (on_emit s.run.temp_workload_id) h.stands ∙ rw h.said_is (names_self id _);
      left = refl;
      alarm_state = refl;
      alarm = refl;
    };
  }

  -- A panic of the provider in the teardown: the workload may be there still.
  pub record Torn (s : Session e) : Type 0 where
    pub torn_at : (phase s ≡ doomed id) ⊎ (phase s ≡ orphaned id)

  after_delete-Contract :
      (node : String) (graded : RunState) (index : ℕ) (o : Option Error)
      → Contract {e = e}
          (Deleted o)
          (after_delete id node graded index o)
          (λ _. Removed graded)
          Orphaned
          Torn
  after_delete-Contract node graded index none =
      Contract-weaken (confirm_removal-Contract graded index) (λ a t h. h) (λ x t h. absurd h)
        (λ t h. absurd h)
  after_delete-Contract node graded index (some x) =
      Contract-weaken (report_orphan-Contract node index x) (λ a t h. absurd h) (λ x t h. h)
        (λ t h. absurd h)

  begin-Contract :
      (ph : Phase) (name : StepName) (state : RunState)
      → Calm ph id
      → Contract {e = e}
          (At ph true id id)
          (begin_step name state)
          (λ _. At ph true id id)
          (λ x s. ⊥)
          (λ s. ⊥)
  unfolding begin_step ◌>>=◌ modify_run clock emit_event gets pure
  begin-Contract ph name state c = record {
    at = λ s h. record {
      stands = ap (on_emit s.run.temp_workload_id) h.stands ∙ rw h.said_is c;
      needs = h.needs;
      temp_is = h.temp_is;
      said_is = h.said_is;
    };
  }

  pub destroy-Contract :
      (node : String) (graded : RunState) (ph : Phase)
      → IsLive id ph
      → Contract {e = e}
          (At ph true id id)
          (destroy id node graded)
          (λ _. Removed graded)
          Orphaned
          Torn
  unfolding destroy
  destroy-Contract node graded ph l =
      Contract-bind
        (Contract-weaken (begin-Contract ph _ _ (IsLive-Calm id l)) (λ a t h. h) (λ x t h. absurd h)
          (λ t h. absurd h))
        λ index.
          Contract-bind
            (Contract-weaken (stop_quietly-Contract ph (live l)) (λ a t h. h) (λ x t h. absurd h)
              (λ t h. record { torn_at = inl h.stands }))
            λ _.
              Contract-bind
                (Contract-weaken delete_once-Contract (λ a t h. h) (λ x t h. absurd h)
                  (λ t h. record { torn_at = inr h.stands }))
                λ failure. after_delete-Contract node graded index failure
