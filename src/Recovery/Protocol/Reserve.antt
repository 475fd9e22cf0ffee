-- ===== src/Recovery/Protocol/Reserve.antt =====
-- The reservation of the temporary workload against the protocol, and closing a failed step.
use restorelab.Prelude.{
  ℕ, ◌≡◌, refl, ap, ◌∙◌, inl, inr, Bool, true, false, String, none, some, ◌∷◌, Bool-cases,
}
use restorelab.Core.Run.{RunState, StepStatus, StepName}
use restorelab.Core.Types.{NetworkConfig}
use restorelab.Plan.{Plan}
use restorelab.Recovery.Engine.{
  Engine, Session, Reply, RunOptions, Entry, M, answered, refused, crashed, outcome, answer, ◌>>=◌,
  ◌>>◌, pure, raise, call, gets, current_run, clock, modify_run, emit_event, end_step, or_fail,
}
use restorelab.Recovery.Steps.Prepare.{
  prepared, reserve, allocate_identity, validate_environment, prepare_environment,
  check_network_isolation,
}
use restorelab.Recovery.Protocol.{Phase, idle, allocated, announced, on_allocate, on_emit}
use restorelab.Recovery.Protocol.Silent.{Calm, names_self, Silent-end, Silent-begin, Silent-or_fail}
use restorelab.Recovery.Protocol.Steps.{Silent-resolve_node, Silent-validate_environment}
use restorelab.Recovery.Protocol.Triple.{
  Ends, Triple, Triple-bind, Triple-on_error, Triple-weaken, At, Silent-Triple,
}

module _ {e : Engine} where
  -- A failed call whose entry leaves the phase is closed by a silent `end_step`.
  pub or_fail-Triple :
      {A : Type 0} {P : Session e → Type 0} {Q : A → Session e → Type 0} {ph : Phase} {need : Bool}
      {temp said : String} (name : StepName) (state : RunState) (index : ℕ) {m : M e A}
      → Calm ph said
      → Triple P m Q (At ph need temp said)
      → Triple P (or_fail name state index m) Q (At ph need temp said)
  unfolding or_fail raise
  or_fail-Triple name state index c km =
      Triple-on_error km
        (λ x.
          Triple-bind (Silent-Triple (Silent-end name state index StepStatus.failed (some x)) c)
            λ _. record { at = λ s h. h })
        (λ t h. h)

  allocate-Triple :
      Triple {e = e}
        (At idle false "" "")
        (call (λ r. Entry.allocate (answer r)) e.allocate_workload_id)
        (λ id. At (allocated id) false "" "")
        (At idle false "" "")
  unfolding call
  allocate-Triple = record { at = λ s h. let (r, w) = e.allocate_workload_id s.world in go r w s h }
    where
      go :
          (r : Reply String) (w : e.World) (s : Session e)
          → At idle false "" "" s
          → Ends
              (λ id. At (allocated id) false "" "")
              (At idle false "" "")
              (outcome r)
              (record s { world = w; trace = Entry.allocate (answer r) ∷ s.trace })
      go (answered id) w s h = record {
        stands = ap (on_allocate (some id)) h.stands;
        needs = h.needs;
        temp_is = h.temp_is;
        said_is = h.said_is;
      }
      go (refused x) w s h = record {
        stands = ap (on_allocate (none)) h.stands;
        needs = h.needs;
        temp_is = h.temp_is;
        said_is = h.said_is;
      }
      go (crashed x) w s h = record {
        stands = ap (on_allocate (none)) h.stands;
        needs = h.needs;
        temp_is = h.temp_is;
        said_is = h.said_is;
      }

  reserve-Triple :
      (p : Plan) (node id : String) (index : ℕ)
      → Triple {e = e}
          (At (allocated id) false "" "")
          (do
            run ← current_run
            named ← clock
            stamped ← clock
            let prep = prepared e p run id node named stamped
            modify_run (reserve prep)
            end_step StepName.prepare_environment RunState.preparing index StepStatus.done none
            pure prep)
          (λ prep. At (announced prep.temp_id) false "" prep.temp_id)
          (At idle false "" "")
  unfolding ◌>>=◌ gets clock modify_run end_step emit_event pure
  reserve-Triple p node id index = record {
    at = λ s h. record {
      stands = ap (on_emit id) h.stands ∙ names_self id _;
      needs = h.needs;
      temp_is = h.temp_is;
      said_is = refl;
    };
  }

  allocate_identity-Triple :
      (p : Plan) (node : String) (index : ℕ)
      → Triple {e = e}
          (At idle false "" "")
          (allocate_identity p node index)
          (λ prep. At (announced prep.temp_id) false "" prep.temp_id)
          (At idle false "" "")
  unfolding allocate_identity
  allocate_identity-Triple p node index =
      Triple-bind (or_fail-Triple _ _ index refl allocate-Triple)
        λ id. reserve-Triple p node id index

  pub refuse-Triple :
      {P : Session e → Type 0} (node : String) (network : NetworkConfig)
      → network.isolated ≡ false
      → Triple P (check_network_isolation node network) (λ _ _. ⊥) P
  unfolding check_network_isolation raise
  refuse-Triple node network off = rw off (record { at = λ s h. h })

  pub never-Triple :
      {A : Type 0} {Q : A → Session e → Type 0} {E : Session e → Type 0} (m : M e A)
      → Triple (λ _. ⊥) m Q E
  never-Triple m = record { at = λ s h. absurd h }

  -- Only a network that is marked isolated gets past the checks.
  validate-Triple :
      (p : Plan) (opts : RunOptions) (index : ℕ)
      → Triple {e = e}
          (At idle false "" "")
          (validate_environment p opts index)
          (λ _ s. At idle false "" "" s × (opts.network.isolated ≡ true))
          (At idle false "" "")
  validate-Triple p opts index = elim (Bool-cases opts.network.isolated) [
    | inl on ↦
        Triple-weaken (Silent-Triple (Silent-validate_environment p opts index) refl) (λ t h. h)
          (λ a t h. (h, on)) (λ t h. h)
    | inr off ↦
        unfold validate_environment in
        Triple-bind (Silent-Triple (Silent-or_fail _ _ index _ (Silent-resolve_node p opts)) refl)
          λ node.
            Triple-bind (or_fail-Triple _ _ index refl (refuse-Triple node opts.network off))
              λ _. never-Triple _
  ]

  pub prepare-Triple :
      (p : Plan) (opts : RunOptions)
      → Triple {e = e}
          (At idle false "" "")
          (prepare_environment p opts)
          (λ prep s.
            At (announced prep.temp_id) false "" prep.temp_id s × (opts.network.isolated ≡ true))
          (At idle false "" "")
  unfolding prepare_environment
  prepare-Triple p opts = Triple-bind (Silent-Triple (Silent-begin _ _) refl) λ index.
      Triple-bind (validate-Triple p opts index) λ node. record {
        at = λ s h.
            let k = allocate_identity-Triple p node index in
            (Triple-weaken k (λ t g. g) (λ a t g. (g, h.1)) (λ t g. g)).at s h.0;
      }
