-- ===== src/Contract.antt =====
-- packages/domain/src/index.ts: the contract of a Pod, from its draft to its publication.
pub mod Types
pub mod Community
pub mod Calendar
pub mod Occurrences
pub mod Dates
pub mod Activity
pub mod Publish
pub mod Pricing
mod Tests
