-- ===== src/Social.antt =====
-- packages/domain/src/social.ts: messages, requests, reports and profiles.
pub mod Patterns
pub mod Uuid
pub mod Message
pub mod Requests
pub mod Reports
pub mod Profile
mod Tests
