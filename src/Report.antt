-- ===== src/Report.antt =====
-- internal/report: the confidence score of a workload.
pub mod Confidence
