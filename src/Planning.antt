-- ===== src/Planning.antt =====
-- The planning flow (packages/planning-steward/src/workflow.ts, from line 226): the stages of a
-- planning workflow, one active at a time, and the advance that a complete checklist allows. A
-- function that throws returns an error value; the states are never mutated, as in the source.
pub mod State
pub mod Flow
pub mod Gate
pub mod Barrier
pub mod Progress
pub mod Order
pub mod Gated
pub mod Passing
mod Tests
