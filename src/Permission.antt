-- ===== src/Permission.antt =====
-- The permission gateway (packages/permission-gateway/src/index.ts): the ordered pipeline that allows a
-- tool request, asks the human about it, or denies it.
pub mod State
pub mod Pipeline
pub mod Allowing
pub mod Denying
mod Tests
