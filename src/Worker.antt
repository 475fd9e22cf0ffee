-- ===== src/Worker.antt =====
-- internal/worker: what a worker does with the runs whose worker died, and with a run that it cannot start.
pub mod Reconcile
