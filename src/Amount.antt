-- ===== src/Amount.antt =====
-- packages/domain/src/index.ts: `parseNimToLuna`.
pub mod Parse
pub mod Exact
mod Tests
