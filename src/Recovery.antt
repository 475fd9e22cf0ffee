-- ===== src/Recovery.antt =====
-- internal/recovery: the engine that runs a plan from the backup to the cleanup.
pub mod Naming
pub mod Engine
pub mod Steps
pub mod Cleanup
pub mod Drill
pub mod Protocol
pub mod Verdict
pub mod Termination
