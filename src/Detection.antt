-- ===== src/Detection.antt =====
-- packages/domain/src/financial-role-detectors.ts: bill payments, internal transfers and refunds
-- among transactions.
pub mod Facts
pub mod Detect
pub mod Amounts
pub mod Decision
pub mod Transfers
pub mod RefundPairs
pub mod Refunds
pub mod Bills
mod Tests
