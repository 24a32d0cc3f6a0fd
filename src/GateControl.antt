-- ===== src/GateControl.antt =====
-- The gate of real API calls (packages/gate-control/src/index.ts): opening and closing it with a
-- read-back, the decision to run, the budget across runs and the token cap of one.
pub mod State
pub mod Limits
pub mod Run
pub mod Closing
pub mod PolicyChange
mod Tests
