-- ===== src/Recovery/Steps.antt =====
-- internal/recovery/steps.go and retry.go: the steps of the workflow.
pub mod Retry
pub mod Discover
pub mod Prepare
pub mod Restore
pub mod Guest
pub mod Checks
