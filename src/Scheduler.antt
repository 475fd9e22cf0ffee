-- ===== src/Scheduler.antt =====
-- internal/scheduler: the producer of queue rows.
pub mod Decide
pub mod Due
pub mod Tick
pub mod Pass
