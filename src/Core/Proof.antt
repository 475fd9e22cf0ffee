-- ===== src/Core/Proof.antt =====
-- internal/core/proof.go: what a drill established about a workload.
pub mod Join
pub mod ProvenBy
use restorelab.Prelude.{
  Bool, true, false, not, String, Option, none, some, str_eq, ◌||◌, if◌then◌else◌,
}
use restorelab.Prelude.Int.{ℤ, pos, negsuc, ltb_ℤ, leb_ℤ}

-- A `ProofLevel` is a string: the five constants, or any other text read back from storage.
pub data ProofLevel : Type 0 where
  proof_unknown proof_none proof_boot proof_service proof_data : ProofLevel
  unrecognised : String → ProofLevel

unfoldable pub rank : ProofLevel → ℤ
rank proof_none = pos 0
rank proof_boot = pos 1
rank proof_service = pos 2
rank proof_data = pos 3
rank proof_unknown = negsuc 0
rank (unrecognised _) = negsuc 0

unfoldable pub recorded : ProofLevel → Bool
unfolding rank
recorded l = leb_ℤ (pos 0) (rank l)

unfoldable pub at_least : ProofLevel → ProofLevel → Bool
unfolding rank
at_least l other = leb_ℤ (rank other) (rank l)

unfoldable pub raise : ProofLevel → ProofLevel → ProofLevel
unfolding rank
raise l other = if ltb_ℤ (rank l) (rank other) then other else l

-- The conversion `ProofLevel(s)`, and the text of a level.
unfoldable pub level_of : String → ProofLevel
level_of s =
    if str_eq s ""
    then proof_unknown
    else if str_eq s "NONE"
    then proof_none
    else if str_eq s "BOOT"
    then proof_boot
    else if str_eq s "SERVICE"
    then proof_service
    else if str_eq s "DATA"
    then proof_data
    else unrecognised s

unfoldable pub level_text : ProofLevel → String
level_text proof_unknown = ""
level_text proof_none = "NONE"
level_text proof_boot = "BOOT"
level_text proof_service = "SERVICE"
level_text proof_data = "DATA"
level_text (unrecognised s) = s

abbrev pub is_unknown : ProofLevel → Bool
is_unknown proof_unknown = true
is_unknown _ = false

-- The second result is Go's `ok`.
unfoldable pub parse_proof_level : String → ProofLevel × Bool
unfolding level_of recorded
parse_proof_level s =
    let l = level_of s in if is_unknown l || recorded l then (l, true) else (proof_unknown, false)
