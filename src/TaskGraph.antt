-- ===== src/TaskGraph.antt =====
-- The subtask store (packages/task-graph/src/index.ts): TaskCreate, TaskUpdate, TaskList, TaskGet and
-- the next runnable subtask. A method that throws returns an error value and leaves the store as it
-- was; `now` is the clock's text.
pub mod State
pub mod Ops
pub mod WellFormed
pub mod Creating
pub mod Updating
pub mod History
pub mod Next
mod Tests
