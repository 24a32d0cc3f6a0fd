-- ===== src/Scheduling.antt =====
-- The scheduling of stories (packages/task-graph/src/scheduler.ts and spawn-plan.ts).
pub mod Sequential
pub mod Rounds
pub mod Dependencies
pub mod SpawnPlan
pub mod Neighbors
pub mod Searching
pub mod Finishing
pub mod Planned
pub mod Wip
mod Tests
