-- ===== src/Evidence.antt =====
-- packages/domain/src/template-evidence.ts: the evidence that each template of a Pod asks for.
pub mod Template
pub mod Draft
pub mod Submission
pub mod Accepted
mod Tests
