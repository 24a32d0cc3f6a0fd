-- ===== src/StoryManager.antt =====
-- The admission of a story (packages/story-manager/src/index.ts).
pub mod Admission
pub mod Conditions
pub mod Gates
mod Tests
