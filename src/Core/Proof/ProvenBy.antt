-- ===== src/Core/Proof/ProvenBy.antt =====
-- `ProvenBy` of internal/core/proof.go.
use restorelab.Prelude.{List, [], ◌∷◌, if◌then◌else◌}
use restorelab.Core.Check.{CheckConfig, CheckResult, is_ok}
use restorelab.Core.Proof.{ProofLevel, proof_none, raise}

pub record ProofCheck : Type 0 where
  pub config : CheckConfig
  pub result : CheckResult

-- One round of the loop: a check that did not pass is stepped over.
unfoldable pub learn : ProofLevel → ProofCheck → ProofLevel
learn level c = if is_ok c.result then raise level c.config.proves else level

-- The loop of `ProvenBy`, from the level reached so far.
unfoldable pub proven_from : ProofLevel → List ProofCheck → ProofLevel
proven_from level [] = level
proven_from level (c ∷ cs) = proven_from (learn level c) cs

unfoldable pub proven_by : List ProofCheck → ProofLevel
unfolding proven_from
proven_by = proven_from proof_none
