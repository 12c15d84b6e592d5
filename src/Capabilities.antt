-- ===== src/Capabilities.antt =====
-- packages/domain/src/alpha-capabilities.ts and runtime-identity.ts: what the environment of a
-- deployment turns on, and who the deployment says it is.
pub mod Alpha
pub mod Identity
mod Tests
