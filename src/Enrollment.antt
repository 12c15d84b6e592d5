-- ===== src/Enrollment.antt =====
-- packages/domain/src/enrollment.ts: applications and invitation tokens.
pub mod Answers
pub mod Token
mod Tests
