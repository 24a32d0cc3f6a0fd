-- ===== src/Orchestrator.antt =====
-- Orchestrator v0 (packages/harness-core/src/orchestrator-v0.ts): the deterministic, single-threaded
-- life of a run. `State` has its types, `Select` the choice of a story, `Decide` and `Advance` the
-- two pure functions of a tick, `Run` their iteration over the results of the executed actions.
pub mod State
pub mod Select
pub mod Decide
pub mod Advance
pub mod Run
mod Tests
