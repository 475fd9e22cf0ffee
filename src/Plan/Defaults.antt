-- ===== src/Plan/Defaults.antt =====
-- `ApplyDefaults` of internal/plan/plan.go.
use restorelab.Prelude.{
  Bool, true, false, not, ◌&&◌, ◌||◌, Option, none, some, List, [], ◌∷◌, map, str_eq, if◌then◌else◌,
}
use restorelab.Plan.{
  BackupStrategy, CheckSpec, Plan, unstated, latest, or_default, default_startup_timeout,
  default_check_timeout, default_restore_timeout, default_retry_interval,
}

-- The type is one of `guestAgentCheckTypes`.
abbrev pub runs_in_guest : CheckSpec → Bool
runs_in_guest c = str_eq c.type "command"

some_on_network : List CheckSpec → Bool
some_on_network [] = false
some_on_network (c ∷ cs) = not (runs_in_guest c) || some_on_network cs

unfoldable pub needs_network : List CheckSpec → Bool
unfolding some_on_network
needs_network [] = true
needs_network (c ∷ cs) = some_on_network (c ∷ cs)

unfoldable pub needs_guest_agent : List CheckSpec → Bool
needs_guest_agent [] = false
needs_guest_agent (c ∷ cs) = runs_in_guest c || needs_guest_agent cs

abbrev pub strategy_or_latest : BackupStrategy → BackupStrategy
strategy_or_latest unstated = latest
strategy_or_latest s = s

abbrev pub set_or : Option Bool → Bool → Option Bool
set_or none want = some want
set_or (some b) want = some b

abbrev pub default_check : CheckSpec → CheckSpec
default_check c = record c {
  timeout = or_default c.timeout default_check_timeout;
  retry_interval = or_default c.retry_interval default_retry_interval;
}

unfoldable pub apply_defaults : Plan → Plan
apply_defaults p = record p {
  backup = record p.backup { strategy = strategy_or_latest p.backup.strategy };
  restore = record p.restore {
    network = if str_eq p.restore.network "" then "isolated" else p.restore.network;
    timeout = or_default p.restore.timeout default_restore_timeout;
  };
  startup = record p.startup {
    timeout = or_default p.startup.timeout default_startup_timeout;
    wait_for_ip =
        set_or p.startup.wait_for_ip
          (not p.startup.skip && str_eq p.startup.ip "" && needs_network p.checks);
    wait_for_agent =
        set_or p.startup.wait_for_agent (not p.startup.skip && needs_guest_agent p.checks);
  };
  cleanup = record p.cleanup { always = set_or p.cleanup.always true };
  checks = map default_check p.checks;
}
