-- ===== src/Calendar/Tests.antt =====
-- The theorems on bank dates at a leap day.
use cash_count.Base.{◌≡◌, refl, arith, leb, ◌↔◌}
use cash_count.Base.Int.{pos}
use cash_count.Base.Numbers.{integer}
use cash_count.Base.Results.{ok}
use cash_count.Base.Text.{text, text_leb}
use cash_count.Calendar.Civil.{Date, days_in_month}
use cash_count.Calendar.Days.{IsDate}
use cash_count.Calendar.Text.{date_of, date_text, parse_bank_date}
use cash_count.Calendar.RoundTrip.{
  IsBankDate, parse_bank_date-date_text, parse_bank_date-IsBankDate,
}
use cash_count.Calendar.Shift.{add_bank_days, shifted, day_of}
use cash_count.Calendar.Arithmetic.{IsBankText, add_bank_days-exact, text_leb-day_of}

abbrev leap_day : Date
leap_day = record { year = 2024; month = 2; day = 29 }

leap_day-IsDate : IsDate leap_day
unfolding days_in_month
leap_day-IsDate = record {
  year_in = omega arith;
  month_in = (omega arith, omega arith);
  day_in = (omega arith, omega arith);
}

leap_day-IsBankDate : IsBankDate leap_day
leap_day-IsBankDate = record { is_date = leap_day-IsDate; year_from = omega arith }

parse_bank_date-date_text_example :
    (parse_bank_date (date_text leap_day) ≡ ok (date_text leap_day))
    × (date_of (date_text leap_day) ≡ leap_day)
parse_bank_date-date_text_example = parse_bank_date-date_text leap_day leap_day-IsBankDate

leap_day_parses : IsBankText (text "2024-02-29")
unfolding parse_bank_date
leap_day_parses = refl

parse_bank_date-IsBankDate_example :
    (text "2024-02-29" ≡ text "2024-02-29")
    × IsBankDate (date_of (text "2024-02-29"))
    × (date_text (date_of (text "2024-02-29")) ≡ text "2024-02-29")
parse_bank_date-IsBankDate_example =
    parse_bank_date-IsBankDate (text "2024-02-29") (text "2024-02-29") leap_day_parses

next_parses : IsBankText (text "2024-03-01")
unfolding parse_bank_date
next_parses = refl

text_leb-day_of_example :
    text_leb (text "2024-02-29") (text "2024-03-01")
    ≡ leb (day_of (text "2024-02-29")) (day_of (text "2024-03-01"))
text_leb-day_of_example =
    text_leb-day_of (text "2024-02-29") (text "2024-03-01") leap_day_parses next_parses

add_bank_days-exact_example :
    (add_bank_days (text "2024-02-29") (integer (pos 1)) ≡ ok (text "2024-03-01")) ↔ (
      IsBankText (text "2024-03-01")
      × (shifted (day_of (text "2024-02-29")) (pos 1) ≡ pos (day_of (text "2024-03-01"))))
add_bank_days-exact_example =
    add_bank_days-exact (text "2024-02-29") (text "2024-03-01") (pos 1) leap_day_parses refl

next_day : shifted (day_of (text "2024-02-29")) (pos 1) ≡ pos (day_of (text "2024-03-01"))
unfolding day_of
next_day = refl

day_after_leap_day : add_bank_days (text "2024-02-29") (integer (pos 1)) ≡ ok (text "2024-03-01")
day_after_leap_day =
    (add_bank_days-exact (text "2024-02-29") (text "2024-03-01") (pos 1) leap_day_parses refl).1
      (next_parses, next_day)
