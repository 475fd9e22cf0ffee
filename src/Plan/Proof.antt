-- ===== src/Plan/Proof.antt =====
-- internal/plan/proof.go, and `ToCore` of plan.go: what a check would establish.
use Prim.Native.String.{◌++◌}
use restorelab.Prelude.{
  Bool, true, false, not, ◌&&◌, ◌||◌, String, Option, none, some, List, [], ◌∷◌, str_eq,
  if◌then◌else◌,
}
use restorelab.Core.Check.{Value, CheckConfig, any_bound}
use restorelab.Core.Proof.{
  ProofLevel, proof_none, proof_boot, proof_service, proof_data, recorded, raise, parse_proof_level,
}
use restorelab.Plan.{
  CheckSpec, Plan, param, display_name, is_critical, or_default, default_check_timeout,
  default_retry_interval,
}
use restorelab.Plan.Text.{
  to_upper, to_lower, contains_any, first_field, after_last_any, trim_suffix,
}

-- strings.Join(parts, " "), or nothing if an element is no text.
join_items : List (Option String) → Option String
join_items [] = some ""
join_items (none ∷ rest) = none
join_items (some s ∷ []) = some s
join_items (some s ∷ x ∷ rest) = elim (join_items (x ∷ rest)) [
  | none ↦ none
  | some t ↦ some (s ++ " " ++ t)
]

argv_line : Option Value → Option String
argv_line (some (Value.items parts _)) = join_items parts
argv_line _ = none

run_line : Option Value → List (String × Value) → Option String
run_line (some (Value.text run)) params = some run
run_line _ params = argv_line (param "argv" params)

unfoldable pub command_line : List (String × Value) → Option String
unfolding join_items argv_line run_line param
command_line params = run_line (param "run" params) params

unfoldable pub program_name : String → String
unfolding to_lower after_last_any trim_suffix
program_name arg = trim_suffix (to_lower (after_last_any arg "/\\" arg)) ".exe"

abbrev pub is_liveness_program : String → Bool
is_liveness_program p =
    str_eq p "hostname"
    || str_eq p "uname"
    || str_eq p "whoami"
    || str_eq p "true"
    || str_eq p "echo"
    || str_eq p "ver"

abbrev pub program_is_liveness : Option String → Bool
program_is_liveness none = false
program_is_liveness (some program) = is_liveness_program (program_name program)

abbrev pub line_is_liveness : Option String → Bool
line_is_liveness none = false
line_is_liveness (some cmd) =
    if contains_any cmd "&|;\n" then false else program_is_liveness (first_field cmd)

unfoldable pub is_liveness_command : List (String × Value) → Bool
unfolding program_name command_line contains_any first_field
is_liveness_command params = line_is_liveness (command_line params)

unfoldable pub proves_the_data : CheckSpec → Bool
proves_the_data c = not (str_eq c.capture "") && any_bound c.assert

-- The level without a declaration.
unfoldable pub deduced_level : CheckSpec → ProofLevel
deduced_level c =
    if proves_the_data c
    then proof_data
    else if str_eq c.type "command" && is_liveness_command c.params
    then proof_boot
    else if str_eq c.type "ping"
    then proof_boot
    else proof_service

-- `ProvenLevel` of a check.
unfoldable pub proven_level : CheckSpec → ProofLevel
proven_level c =
    let (l, ok) = parse_proof_level (to_upper c.proves) in
    if not (str_eq c.proves "") && ok && recorded l then l else deduced_level c

unfoldable pub to_core : CheckSpec → CheckConfig
to_core c = record {
  type = c.type;
  name = display_name c;
  timeout = or_default c.timeout default_check_timeout;
  retries = c.retries;
  retry_interval = or_default c.retry_interval default_retry_interval;
  critical = is_critical c;
  params = c.params;
  proves = proven_level c;
  capture = c.capture;
  assert = c.assert;
  drift = c.drift;
}

raise_each : ProofLevel → List CheckSpec → ProofLevel
raise_each level [] = level
raise_each level (c ∷ cs) = raise_each (raise level (proven_level c)) cs

abbrev pub is_empty {ℓ} : {A : Type ℓ} → List A → Bool
is_empty [] = true
is_empty (_ ∷ _) = false

-- `ProvenLevel` of a plan.
unfoldable pub plan_proven_level : Plan → ProofLevel
unfolding raise_each
plan_proven_level p =
    if p.startup.skip || is_empty p.checks then proof_none else raise_each proof_none p.checks
