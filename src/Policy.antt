-- ===== src/Policy.antt =====
-- packages/domain/src/transaction-policy.ts: the direction, role and effects of a transaction.
pub mod Types
pub mod Classify
pub mod Effects
pub mod Precedence
pub mod Signs
mod Tests
