-- ===== src/Worker.antt =====
-- backend/internal/worker/ci_worker.go: how the jobs of a workflow run are executed.
pub mod Run
pub mod Mask
pub mod Env
pub mod Steps
pub mod Handle
pub mod Secrets
pub mod Whole
