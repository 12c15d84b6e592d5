-- ===== src/Transfers.antt =====
-- packages/db/src/transfer-repository.ts: the transfers of refunds and payouts, and their attempts.
pub mod States
pub mod Payout
pub mod Confirm
pub mod Refund
pub mod Run
pub mod Audit
mod Tests
