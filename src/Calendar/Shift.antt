-- ===== src/Calendar/Shift.antt =====
-- `addBankDays` of packages/domain/src/dates.ts, and the way from a day back to a bank date, which
-- `bankDateAt` of packages/analytics/src/index.ts takes as well.
use cash_count.Base.{ℕ, suc, ◌+◌, Bool, leb, ltb, if◌then◌else◌}
use cash_count.Base.Int.{ℤ, pos, negsuc, sub_ℕ, pos_part, neg_part}
use cash_count.Base.Numbers.{JsNumber, integer, other, max_safe_integer}
use cash_count.Base.Results.{Result, err}
use cash_count.Base.Text.{Text}
use cash_count.Calendar.Civil.{day_number, date_at}
use cash_count.Calendar.Text.{
  DateError, bad_offset, bad_time, invalid_bank_date, date_of, date_text, parse_bank_date,
}

-- `Date.parse(t + 'T00:00:00Z')` of a bank date, in days.
unfoldable pub day_of : Text → ℕ
unfolding day_number date_of
day_of t = day_number (date_of t)

-- The day of 1970-01-01, and how many days from it a `Date` reaches.
abbrev pub epoch_day : ℕ
epoch_day = 719528

abbrev pub reach : ℕ
reach = 100000000

-- `parseBankDate(new Date(…).toISOString().slice(0, 10))` of a day. `toISOString` throws out of the
-- reach of a `Date`, and writes years before 0 and after 9999 in a form that is no bank date.
unfoldable pub bank_date_at : ℤ → Result DateError Text
unfolding parse_bank_date date_text date_at
bank_date_at (negsuc n) =
    if ltb reach (epoch_day + suc n) then err bad_time else err invalid_bank_date
bank_date_at (pos n) =
    if ltb (epoch_day + reach) n
    then err bad_time
    else if leb 3652425 n
    then err invalid_bank_date
    else parse_bank_date (date_text (date_at n))

abbrev pub shifted : ℕ → ℤ → ℤ
shifted n z = sub_ℕ (n + pos_part z) (neg_part z)

abbrev pub is_safe : ℤ → Bool
is_safe (pos n) = leb n max_safe_integer
is_safe (negsuc n) = ltb n max_safe_integer

unfoldable pub add_bank_days : Text → JsNumber → Result DateError Text
unfolding day_of bank_date_at
add_bank_days t other = err bad_offset
add_bank_days t (integer z) =
    if is_safe z then bank_date_at (shifted (day_of t) z) else err bad_offset
