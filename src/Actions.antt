-- ===== src/Actions.antt =====
-- The scheduling of the jobs of a workflow run.
pub mod Schedule
pub mod Trigger
