-- ===== src/Recovery/Protocol/Restore.antt =====
-- The restore, the hardening and the start against the protocol.
use text.Mathlib.TextPositions.{eq_refl}
use restorelab.Prelude.{
  ℕ, ◌≡◌, refl, Bool, true, false, String, Option, none, some, ◌∷◌, is_some, if◌then◌else◌,
}
use restorelab.Core.Types.{Backup, TaskState, RestoreOptions}
use restorelab.Plan.{Plan}
use restorelab.Recovery.Engine.{
  Engine, Session, Reply, RunOptions, Entry, M, answered, refused, crashed, outcome, is_answered,
  pure, call,
}
use restorelab.Recovery.Steps.Prepare.{Prepared}
use restorelab.Recovery.Steps.Restore.{
  restore_options, the_backup, mark_created, check_task, harden, FinalizeRestore, settle_restore,
  restore_workload,
}
use restorelab.Recovery.Protocol.{
  Phase, idle, announced, restored, hardened, unhardened, started, names, on_restore, on_finalize,
  on_start, phase,
}
use restorelab.Recovery.Protocol as Phases
use restorelab.Recovery.Protocol.Silent.{
  Silent, Calm, Same-refl, names_self, Silent-end, Silent-begin, Silent-gets, Silent-or_fail,
  Silent-query, Silent-retry, Silent-raise, Silent-pure, Silent-if,
}
use restorelab.Recovery.Protocol.Reserve.{or_fail-Triple}
use restorelab.Recovery.Protocol.Triple.{
  Ends, Triple, Triple-bind, Triple-weaken, At, Silent-Triple,
}

-- Where a created workload may stand when the workflow ends, and where none has been created.
abbrev pub Fits : Phase → Bool → String → String → Type 0
Fits idle need temp said = need ≡ false
Fits (announced id) need temp said = (need ≡ false) × (id ≡ said)
Fits (Phases.refused id) need temp said = (need ≡ false) × (id ≡ said)
Fits (restored id) need temp said = (need ≡ true) × (id ≡ temp) × (id ≡ said)
Fits (hardened id) need temp said = (need ≡ true) × (id ≡ temp) × (id ≡ said)
Fits (unhardened id) need temp said = (need ≡ true) × (id ≡ temp) × (id ≡ said)
Fits (started id) need temp said = (need ≡ true) × (id ≡ temp) × (id ≡ said)
Fits _ need temp said = ⊥

pub record Settled {e : Engine} (s : Session e) : Type 0 where
  pub fits : Fits (phase s) s.needs_cleanup s.temp_id s.run.temp_workload_id

pub At-Settled :
    {e : Engine} {ph : Phase} {need : Bool} {temp said : String}
    → Fits ph need temp said
    → (s : Session e) → At ph need temp said s
    → Settled s
At-Settled f s h = record { fits = rw (h.stands, h.needs, h.temp_is, h.said_is) f }

-- Where a workload may be started: hardened, if the provider has a hardening pass.
abbrev pub ready : Bool → String → Phase
ready true id = hardened id
ready false id = restored id

pub ready-Calm : (hardens : Bool) (id : String) → Calm (ready hardens id) id
ready-Calm true id = names_self id _
ready-Calm false id = names_self id _

pub ready-Fits : (hardens : Bool) (id : String) → Fits (ready hardens id) true id id
ready-Fits true id = (refl, refl, refl)
ready-Fits false id = (refl, refl, refl)

module _ {e : Engine} {A : Type 0} where
  pub settle-Triple :
      {P : Session e → Type 0} {Q : A → Session e → Type 0} {ph : Phase} {need : Bool}
      {temp said : String} {m : M e A}
      → Fits ph need temp said
      → Triple P m Q (At ph need temp said)
      → Triple P m Q Settled
  settle-Triple f k = Triple-weaken k (λ t h. h) (λ a t h. h) (At-Settled f)

module _ {e : Engine} (id : String) where
  Silent-the_backup : (b : Option Backup) → Silent {e = e} (the_backup b)
  Silent-the_backup none = record { at = λ s c. Same-refl s }
  Silent-the_backup (some b) = record { at = λ s c. Same-refl s }

  Silent-check_task : (t : Option TaskState) → Silent {e = e} (check_task t)
  Silent-check_task none = Silent-raise _
  Silent-check_task (some t) = Silent-if t.success _ _ (Silent-pure tt) (Silent-raise _)

  restore_call-Triple :
      (options : RestoreOptions) (b : Backup)
      → options.target_workload_id ≡ id
      → options.network.isolated ≡ true
      → options.start ≡ false
      → Triple {e = e}
          (At (announced id) false id id)
          (call (λ r. Entry.restore options (is_answered r)) (e.restore b options))
          (λ _. At (restored id) false id id)
          (At (Phases.refused id) false id id)
  unfolding call
  restore_call-Triple options b same on off = record {
    at = λ s h. let (r, w) = e.restore b options s.world in go r w s h;
  }
    where
      moved :
          (done : Bool) (ph : Phase)
          → ph ≡ announced id
          → on_restore options done ph ≡ (if done then restored id else Phases.refused id)
      moved done ph p = rw (p, same, eq_refl, on, off)

      go :
          (r : Reply e.Job) (w : e.World) (s : Session e)
          → At (announced id) false id id s
          → Ends
              (λ _. At (restored id) false id id)
              (At (Phases.refused id) false id id)
              (outcome r)
              (record s { world = w; trace = Entry.restore options (is_answered r) ∷ s.trace })
      go (answered j) w s h = record {
        stands = moved true _ h.stands;
        needs = h.needs;
        temp_is = h.temp_is;
        said_is = h.said_is;
      }
      go (refused x) w s h = record {
        stands = moved false _ h.stands;
        needs = h.needs;
        temp_is = h.temp_is;
        said_is = h.said_is;
      }
      go (crashed x) w s h = record {
        stands = moved false _ h.stands;
        needs = h.needs;
        temp_is = h.temp_is;
        said_is = h.said_is;
      }

  mark_created-Triple :
      Triple {e = e}
        (At (restored id) false id id)
        mark_created
        (λ _. At (restored id) true id id)
        Settled
  unfolding mark_created
  mark_created-Triple = record {
    at =
        λ s h. record { stands = h.stands; needs = refl; temp_is = h.temp_is; said_is = h.said_is };
  }

  harden-Triple :
      (f : FinalizeRestore e) (options : RestoreOptions)
      → options.target_workload_id ≡ id
      → Triple {e = e}
          (At (restored id) true id id)
          (harden {e = e} f options)
          (λ _. At (ready (is_some f) id) true id id)
          (At (unhardened id) true id id)
  unfolding pure call
  harden-Triple none options same = record { at = λ s h. h }
  harden-Triple (some f) options same = record {
    at = λ s h. let (r, w) = f options s.world in go r w s h;
  }
    where
      moved :
          (done : Bool) (ph : Phase)
          → ph ≡ restored id
          → on_finalize options.target_workload_id done ph
            ≡ (if done then hardened id else unhardened id)
      moved done ph p = rw (p, same, eq_refl)

      go :
          (r : Reply (Unit {0})) (w : e.World) (s : Session e)
          → At (restored id) true id id s
          → Ends
              (λ _. At (hardened id) true id id)
              (At (unhardened id) true id id)
              (outcome r)
              (record s { world = w; trace = Entry.finalize options (is_answered r) ∷ s.trace })
      go (answered j) w s h = record {
        stands = moved true _ h.stands;
        needs = h.needs;
        temp_is = h.temp_is;
        said_is = h.said_is;
      }
      go (refused x) w s h = record {
        stands = moved false _ h.stands;
        needs = h.needs;
        temp_is = h.temp_is;
        said_is = h.said_is;
      }
      go (crashed x) w s h = record {
        stands = moved false _ h.stands;
        needs = h.needs;
        temp_is = h.temp_is;
        said_is = h.said_is;
      }

module _ {e : Engine} where
  settle_restore-Triple :
      (job : e.Job) (options : RestoreOptions) (index : ℕ)
      → let id = options.target_workload_id in
        Triple {e = e}
          (At (restored id) true id id)
          (settle_restore job options index)
          (λ _. At (ready (is_some e.finalize_restore) id) true id id)
          Settled
  unfolding settle_restore
  settle_restore-Triple job options index =
      let id = options.target_workload_id in
      let calm = names_self id (restored id) in
      let fits : Fits (restored id) true id id = (refl, refl, refl) in
      let hardens = is_some e.finalize_restore in
      Triple-bind
        (settle-Triple fits
          (Silent-Triple (Silent-or_fail _ _ index _ (Silent-retry _ _ _ (Silent-query _ _))) calm))
        λ task.
          Triple-bind
            (settle-Triple fits
              (Silent-Triple (Silent-or_fail _ _ index _ (Silent-check_task id task)) calm))
            λ _.
              Triple-bind
                (settle-Triple (refl, refl, refl)
                  (or_fail-Triple _ _ index (names_self id (unhardened id))
                    (harden-Triple id e.finalize_restore options refl)))
                λ _.
                  settle-Triple (ready-Fits hardens id)
                    (Silent-Triple (Silent-end _ _ index _ _) (ready-Calm hardens id))

  pub restore-Triple :
      (p : Plan) (opts : RunOptions) (prep : Prepared)
      → opts.network.isolated ≡ true
      → let id = prep.temp_id in
        Triple {e = e}
          (At (announced id) false id id)
          (restore_workload p opts prep)
          (λ _. At (ready (is_some e.finalize_restore) id) true id id)
          Settled
  unfolding restore_workload
  restore-Triple p opts prep on =
      let id = prep.temp_id in
      let calm = names_self id (announced id) in
      let fits : Fits (announced id) false id id = (refl, refl) in
      Triple-bind (settle-Triple fits (Silent-Triple (Silent-begin _ _) calm)) λ index.
        Triple-bind (settle-Triple fits (Silent-Triple (Silent-gets _) calm)) λ run.
          Triple-bind (settle-Triple fits (Silent-Triple (Silent-the_backup id run.backup) calm))
            λ backup.
              Triple-bind
                (settle-Triple (refl, refl)
                  (or_fail-Triple _ _ index (names_self id (Phases.refused id))
                    (restore_call-Triple id (restore_options p opts prep) backup refl on refl)))
                λ job.
                  Triple-bind (mark_created-Triple id)
                    λ _. settle_restore-Triple job (restore_options p opts prep) index
