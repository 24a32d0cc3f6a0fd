-- ===== src/FailureBank.antt =====
-- The bank of failure genes (packages/failure-bank/src/index.ts): what a failure teaches, merged where
-- the signals overlap, and picked for a context.
pub mod State
pub mod Bank
pub mod Merging
pub mod Disjoint
pub mod History
pub mod Matching
pub mod Picking
pub mod Best
mod Tests
