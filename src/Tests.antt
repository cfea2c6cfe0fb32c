-- ===== src/Tests.antt =====
-- Runs of the code at concrete inputs, and the theorems applied to them.
mod Language
mod Graphs
mod Services
mod Requests
mod Runs
mod Scripts
mod Tasks
mod Pushes
