-- ===== src/Periods/Tests.antt =====
-- Ranges of dates at small inputs.
use cash_count.Base.{◌≡◌, refl, true, none, some, arith, ◌+◌, ◌-◌, ◌/◌, ◌≤◌, min}
use cash_count.Base.Results.{ok}
use cash_count.Base.Text.{Text, text, text_leb}
use cash_count.Calendar.Arithmetic.{IsBankText}
use cash_count.Calendar.Civil.{days_in_month}
use cash_count.Calendar.Shift.{day_of}
use cash_count.Calendar.Text.{date_of, parse_bank_date}
use cash_count.Periods.Ranges.{
  SummaryInput, Summary, by_month, with_default, normalize_input, shift_month, shift_year,
}
use cash_count.Periods.Comparison.{
  previous_period, previous_month, ComparisonInput, Comparison, Range, range, calculated_range,
  normalize_comparison_input,
}
use cash_count.Periods.Bounds.{IsOrdered}
use cash_count.Periods.Results.{month_index, HasBankDates, IsPrevious, previous_period-IsPrevious}
use cash_count.Periods.Comparable.{
  IsComparable, normalize_comparison_input-IsComparable, normalize_input-IsOrdered,
}
use cash_count.Periods.Months.{shift_month_lands, shift_month_early, shift_year_lands}

abbrev summary_input : SummaryInput
summary_input = record {
  account_id = none;
  category_id = none;
  from = text "2024-02-01";
  granularity = none;
  include_pending = none;
  merchant_id = none;
  to = text "2024-02-29";
}

summary : (c : Summary) × (normalize_input summary_input ≡ ok c)
unfolding normalize_input text_leb
summary = (_, refl)

normalize_input-IsOrdered_example :
    IsOrdered (range summary.0.from summary.0.to)
    × (day_of summary.0.to ≤ day_of summary.0.from + 366)
    × (summary.0.granularity ≡ with_default by_month summary_input.granularity)
    × (summary.0.from ≡ summary_input.from)
    × (summary.0.to ≡ summary_input.to)
normalize_input-IsOrdered_example = normalize_input-IsOrdered summary_input summary.0 summary.1

abbrev comparison_input : ComparisonInput
comparison_input = record {
  account_id = none;
  category_id = none;
  comparison_from = none;
  comparison_to = none;
  current_from = text "2024-03-01";
  current_to = text "2024-03-31";
  include_pending = none;
  merchant_id = none;
  mode = previous_month;
  same_elapsed_days = some true;
}

comparison : (c : Comparison) × (normalize_comparison_input comparison_input ≡ ok c)
unfolding normalize_comparison_input text_leb
comparison = (_, refl)

normalize_comparison_input-IsComparable_example : IsComparable comparison_input comparison.0
normalize_comparison_input-IsComparable_example =
    normalize_comparison_input-IsComparable comparison_input comparison.0 comparison.1

abbrev march : Range
march = range (text "2024-03-01") (text "2024-03-31")

march_begins : IsBankText (text "2024-03-01")
unfolding parse_bank_date
march_begins = refl

march_ends : IsBankText (text "2024-03-31")
unfolding parse_bank_date
march_ends = refl

march-IsOrdered : IsOrdered march
unfolding day_of
march-IsOrdered = record { from_date = march_begins; to_date = march_ends; in_order = omega arith }

before_march :
    calculated_range previous_period march ≡ ok (range (text "2024-01-30") (text "2024-02-29"))
unfolding calculated_range
before_march = refl

previous_period-IsPrevious_example :
    HasBankDates (range (text "2024-01-30") (text "2024-02-29"))
    × IsPrevious march (range (text "2024-01-30") (text "2024-02-29"))
previous_period-IsPrevious_example =
    previous_period-IsPrevious march (range (text "2024-01-30") (text "2024-02-29")) march-IsOrdered
      before_march

shift_month_lands_example :
    (u : Text) × (shift_month (text "2024-03-31") 1 ≡ ok u)
    × IsBankText u
    × (month_index u + 1 ≡ month_index (text "2024-03-31"))
    × ((date_of u).day
        ≡ min (date_of (text "2024-03-31")).day (days_in_month (date_of u).year (date_of u).month))
unfolding date_of
shift_month_lands_example = shift_month_lands (text "2024-03-31") 1 march_ends (omega arith)

shift_year_lands_example :
    (u : Text) × (shift_year (text "2024-03-31") 1 ≡ ok u)
    × IsBankText u
    × ((date_of u).year + 1 ≡ (date_of (text "2024-03-31")).year)
    × ((date_of u).month ≡ (date_of (text "2024-03-31")).month)
    × ((date_of u).day
        ≡ min (date_of (text "2024-03-31")).day (days_in_month (date_of u).year (date_of u).month))
unfolding date_of
shift_year_lands_example = shift_year_lands (text "2024-03-31") 1 march_ends (omega arith)

early : IsBankText (text "0100-01-15")
unfolding parse_bank_date
early = refl

early_month : shift_month (text "0100-01-15") 1 ≡ ok (text "1999-12-15")
unfolding shift_month
early_month = refl

shift_month_early_example :
    (date_of (text "1999-12-15")).year ≡ 1900 + (month_index (text "0100-01-15") - 1) / 12
unfolding date_of
shift_month_early_example =
    shift_month_early (text "0100-01-15") (text "1999-12-15") 1 early early_month (omega arith)
