-- ===== src/Replacement.antt =====
-- packages/domain/src/replacement-policy.ts: whether a transaction replaces another one.
pub mod Score
pub mod Eligible
mod Tests
