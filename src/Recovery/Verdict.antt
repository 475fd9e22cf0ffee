-- ===== src/Recovery/Verdict.antt =====
-- What the state, the result and the errors of a finished drill say of each other.
mod Quiet
pub mod Graded
pub mod Final
