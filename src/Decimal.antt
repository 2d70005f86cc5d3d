-- ===== src/Decimal.antt =====
-- packages/domain/src/money.ts: fixed-point decimal strings, currency codes and `Money`.
-- The arithmetic of decimal.js is a parameter, `Decimals`.
pub mod Pattern
pub mod Units
pub mod Money
pub mod Laws
pub mod Exact
