-- ===== src/Calendar.antt =====
-- packages/domain/src/dates.ts: bank dates, which are strings of the form YYYY-MM-DD, and the
-- calendar of JavaScript's `Date` that they are checked against.
pub mod Civil
pub mod Days
pub mod Numbering
pub mod Text
pub mod RoundTrip
pub mod Order
pub mod Shift
pub mod Arithmetic
mod Tests
