-- ===== src/Recovery/Protocol/Isolation.antt =====
-- A network that the engine may not restore onto: nothing is created behind a refusal.
use restorelab.Prelude.{◌≡◌, ◌≢◌, false, String, some, List, []}
use restorelab.Core.Types.{NetworkConfig}
use restorelab.Core.Errors.{Error}
use restorelab.Plan.{Plan}
use restorelab.Recovery.Engine.{Engine, Session, Reply, answered, refused, crashed}
use restorelab.Recovery.Steps.Prepare.{validate_isolation}
use restorelab.Recovery.Protocol.{idle, phase}
use restorelab.Recovery.Protocol.Triple.{Triple, At}

-- A validator does not let the network through: it refuses it, and not because it could not read it.
abbrev pub IsRefusal : Reply (Unit {0}) → Type 0
IsRefusal (answered u) = ⊥
IsRefusal (refused x) = x.isolation_unverified ≡ false
IsRefusal (crashed x) = Unit

-- The network is not marked isolated, or the provider refuses it on every node.
pub data IsForbidden (e : Engine) (network : NetworkConfig) : Type 0 where
  unmarked : network.isolated ≡ false → IsForbidden e network
  unproven :
      (validate : String → NetworkConfig → e.World → Reply (Unit {0}) × e.World)
      → e.validate_isolation ≡ some validate
      → ((node : String) (w : e.World) → IsRefusal (validate node network w).0)
      → IsForbidden e network

module _ {e : Engine} where
  abbrev Untouched : Session e → Type 0
  Untouched = At idle false "" ""

-- Nothing was created, and the drill has an error.
abbrev pub IsRefused : {e : Engine} → List Error → Session e → Type 0
IsRefused errs s = (phase s ≡ idle) × (errs ≢ [])
