-- ===== src/Harness.antt =====
-- The decisions of the harness (packages/harness-core/src/index.ts, from line 43): the states of a
-- story and their legal transitions, story selection, budgets, the convergence of a project, the
-- auto-advance within an epic, the human gates and the single step of the inner loop.
pub mod State
pub mod Walk
pub mod Select
pub mod Convergence
pub mod AutoAdvance
pub mod Gate
pub mod Boundary
mod Tests
