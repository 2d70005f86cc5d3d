-- ===== src/Periods/Comparison.antt =====
-- `normalizeComparisonInput` of packages/analytics/src/index.ts.
use cash_count.Base.{◌-◌, min, Bool, true, false, not, ◌||◌, Option, some, leb, ltb, is_some}
use cash_count.Base.Results.{Result, ok, err, ◌>>=◌, ◌>>◌, guard}
use cash_count.Base.Text.{Text}
use cash_count.Calendar.Text.{parse_bank_date}
use cash_count.Periods.Ranges.{
  PeriodError, invalid_mode, current_reversed, current_long, custom_missing, custom_unexpected,
  comparison_invalid, bank_date, require_uuid, is_uuid, with_default, is_after, day_count,
  days_after, days_before, shift_month, shift_year,
}

pub data Mode : Type 0 where
  previous_period previous_month previous_year custom other_mode : Mode

abbrev pub is_mode : Mode → Bool
is_mode other_mode = false
is_mode m = true

pub record ComparisonInput : Type 0 where
  pub account_id : Option Text
  pub category_id : Option Text
  pub comparison_from : Option Text
  pub comparison_to : Option Text
  pub current_from : Text
  pub current_to : Text
  pub include_pending : Option Bool
  pub merchant_id : Option Text
  pub mode : Mode
  pub same_elapsed_days : Option Bool

pub record Range : Type 0 where
  pub from : Text
  pub to : Text

pub record Comparison : Type 0 where
  pub account_id : Option Text
  pub category_id : Option Text
  pub comparison : Range
  pub current : Range
  pub include_pending : Bool
  pub merchant_id : Option Text
  pub mode : Mode
  pub same_elapsed_days : Bool

abbrev pub range : Text → Text → Range
range from to = record { from = from; to = to }

-- The range that the caller gives.
unfoldable pub custom_range : Option Text → Option Text → Result PeriodError Range
unfolding parse_bank_date
custom_range (some from) (some to) = do
  start ← bank_date from
  end ← bank_date to
  ok (range start end)
custom_range from to = err custom_missing

-- The range that a mode calculates from the current one.
unfoldable pub calculated_range : Mode → Range → Result PeriodError Range
unfolding days_before day_count shift_month shift_year
calculated_range previous_period current = do
  to ← days_before current.from 1
  from ← days_before to (day_count current.from current.to - 1)
  ok (range from to)
calculated_range previous_month current = do
  from ← shift_month current.from 1
  to ← shift_month current.to 1
  ok (range from to)
calculated_range mode current = do
  from ← shift_year current.from 1
  to ← shift_year current.to 1
  ok (range from to)

-- The range of comparison: a mode that calculates it accepts no dates of the caller.
unfoldable pub comparison_range :
    Mode → Option Text → Option Text → Range → Result PeriodError Range
unfolding custom_range calculated_range
comparison_range custom from to current = custom_range from to
comparison_range mode from to current =
    guard (not (is_some from || is_some to)) custom_unexpected >> calculated_range mode current

-- Both ranges cut to the days of the shorter one.
unfoldable pub same_elapsed : Bool → Range → Range → Result PeriodError (Range × Range)
unfolding day_count days_after
same_elapsed false current comparison = ok (current, comparison)
same_elapsed true current comparison =
    let days = min (day_count current.from current.to) (day_count comparison.from comparison.to) in
    do
      current_to ← days_after current.from (days - 1)
      comparison_to ← days_after comparison.from (days - 1)
      ok (range current.from current_to, range comparison.from comparison_to)

unfoldable pub normalize_comparison_input : ComparisonInput → Result PeriodError Comparison
unfolding parse_bank_date day_count is_uuid comparison_range same_elapsed
normalize_comparison_input input = do
  guard (is_mode input.mode) invalid_mode
  current_from ← bank_date input.current_from
  current_to ← bank_date input.current_to
  guard (not (is_after current_from current_to)) current_reversed
  guard (leb (day_count current_from current_to) 367) current_long
  require_uuid input.account_id
  require_uuid input.category_id
  require_uuid input.merchant_id
  let current = range current_from current_to
  comparison ← comparison_range input.mode input.comparison_from input.comparison_to current
  guard
      (not (
        is_after comparison.from comparison.to
        || ltb 367 (day_count comparison.from comparison.to)))
      comparison_invalid
  let elapsed = with_default false input.same_elapsed_days
  ranges ← same_elapsed elapsed current comparison
  ok (record {
    account_id = input.account_id;
    category_id = input.category_id;
    comparison = ranges.1;
    current = ranges.0;
    include_pending = with_default false input.include_pending;
    merchant_id = input.merchant_id;
    mode = input.mode;
    same_elapsed_days = elapsed;
  })
