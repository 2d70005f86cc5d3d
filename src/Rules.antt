-- ===== src/Rules.antt =====
-- The classification rules of packages/classification/src/rule-dsl.ts and
-- packages/classification/src/rule-evaluator.ts: the documents and their schema, the conditions,
-- and the evaluation of ordered rules.
pub mod Types
pub mod Schema
pub mod Documents
pub mod Conditions
pub mod Actions
pub mod Evaluate
pub mod Log
pub mod FirstWins
pub mod TagChanges
pub mod Decided
pub mod Loop
pub mod Outcome
pub mod Returns
pub mod Operators
pub mod Total
mod Tests
