-- ===== src/Periods.antt =====
-- packages/analytics/src/index.ts: the ranges of dates that the analytics of spending and of periods
-- ask the database for.
pub mod Ranges
pub mod Comparison
pub mod Bounds
pub mod Results
pub mod Comparable
pub mod Months
mod Tests
