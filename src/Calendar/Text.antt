-- ===== src/Calendar/Text.antt =====
-- Bank dates as texts: `parseBankDate`, `parseBillForecastMonth` and the two functions between them,
-- of packages/domain/src/dates.ts. A branded string is the text itself.
use cash_count.Base.{
  ℕ, ◌+◌, ◌-◌, ◌*◌, ◌/◌, ◌%◌, Bool, not, ◌||◌, List, [], ◌∷◌, ◌++◌, ltb, ◌==◌, if◌then◌else◌, take,
  drop,
}
use cash_count.Base.Results.{Result, ok, err}
use cash_count.Base.Text.{Text, text, text_eq, matches, is_digit}
use cash_count.Calendar.Civil.{Date, is_valid_date}

pub data DateError : Type 0 where
  invalid_bank_date invalid_forecast_month bad_offset bad_time : DateError

-- `Number` of a text of digits, after the digits that make up `n`.
unfoldable pub number_from : ℕ → Text → ℕ
number_from n [] = n
number_from n (c ∷ cs) = number_from (n * 10 + (c - b'0')) cs

abbrev pub is_dash : ℕ → Bool
is_dash c = c == b'-'

-- `/^(\d{4})-(\d{2})$/` and `/^(\d{4})-(\d{2})-(\d{2})$/`
abbrev pub month_pattern : List (ℕ → Bool)
month_pattern = is_digit ∷ is_digit ∷ is_digit ∷ is_digit ∷ is_dash ∷ is_digit ∷ is_digit ∷ []

abbrev pub bank_date_pattern : List (ℕ → Bool)
bank_date_pattern =
    is_digit ∷ is_digit ∷ is_digit ∷ is_digit ∷ is_dash ∷ is_digit ∷ is_digit ∷ is_dash ∷ is_digit
    ∷ is_digit ∷ []

-- The three groups of the pattern, as numbers.
unfoldable pub date_of : Text → Date
unfolding number_from
date_of t = record {
  year = number_from 0 (take 4 t);
  month = number_from 0 (take 2 (drop 5 t));
  day = number_from 0 (take 2 (drop 8 t));
}

unfoldable pub parse_bank_date : Text → Result DateError Text
unfolding matches date_of is_valid_date
parse_bank_date t =
    if not (matches bank_date_pattern t)
    then err invalid_bank_date
    else if not (is_valid_date (date_of t))
    then err invalid_bank_date
    else ok t

unfoldable pub parse_bill_forecast_month : Text → Result DateError Text
unfolding matches number_from
parse_bill_forecast_month t =
    if not (matches month_pattern t)
    then err invalid_forecast_month
    else let month = number_from 0 (take 2 (drop 5 t)) in
      if ltb month 1 || ltb 12 month then err invalid_forecast_month else ok t

-- `billForecastMonthToBankDate`
unfoldable pub forecast_month_date : Text → Result DateError Text
unfolding parse_bank_date
forecast_month_date t = parse_bank_date (t ++ text "-01")

-- `billForecastMonthFromBankDate`: `endsWith` and `slice` on a text of ten characters.
unfoldable pub forecast_month_of : Text → Result DateError Text
unfolding parse_bill_forecast_month text_eq
forecast_month_of t =
    if not (text_eq (drop 7 t) (text "-01"))
    then err invalid_forecast_month
    else parse_bill_forecast_month (take 7 t)

-- The first ten characters of `toISOString` in the years 0 to 9999.
abbrev pub digit : ℕ → ℕ
digit n = b'0' + n

abbrev pub two_digits : ℕ → Text → Text
two_digits n rest = digit (n / 10) ∷ digit (n % 10) ∷ rest

unfoldable pub date_text : Date → Text
date_text d =
    two_digits (d.year / 100)
      (two_digits (d.year % 100) (b'-' ∷ two_digits d.month (b'-' ∷ two_digits d.day [])))
