-- ===== src/Deposit.antt =====
-- packages/domain/src/funding.ts: the life of a deposit, its amount, and the order of finalized
-- deposits.
pub mod Machine
pub mod Life
pub mod Order
mod Tests
