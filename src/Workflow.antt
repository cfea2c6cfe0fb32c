-- ===== src/Workflow.antt =====
-- backend/internal/infrastructure/workflow: the workflow language of the CI engine.
pub mod Expression
pub mod Eval
pub mod Interpolate
pub mod Dag
pub mod Matrix
