-- ===== src/Checks.antt =====
-- internal/checks: the registry that runs the checks of a plan.
pub mod Registry
