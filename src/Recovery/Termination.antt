-- ===== src/Recovery/Termination.antt =====
-- A drill ends: no step loops, and the wait for the guest is bounded by its deadline.
pub mod Passes
pub mod Steps
pub mod Wait
pub mod Return
