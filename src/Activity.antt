-- ===== src/Activity.antt =====
-- packages/domain/src/activity.ts: the window of an occurrence, the states of a submission, and the
-- inputs that are checked on the way.
pub mod Window
pub mod Submission
pub mod Review
pub mod Build
mod Tests
