-- ===== src/Periods/Ranges.antt =====
-- `normalizeInput` and `normalizeComparisonInput` of packages/analytics/src/index.ts, with the
-- arithmetic on dates that they use.
use cash_count.Base.{
  ℕ, ◌+◌, ◌-◌, ◌*◌, ◌/◌, ◌%◌, min, Bool, true, false, not, ◌&&◌, ◌||◌, Option, none, some, [], ◌∷◌,
  leb, ltb, ◌==◌, if◌then◌else◌, length,
}
use cash_count.Base.Int.{pos, sub_ℕ}
use cash_count.Base.Results.{Result, ok, err, ◌>>=◌, ◌>>◌, guard, map_err}
use cash_count.Base.Text.{Text, text_eq, text_leb, matches, is_digit, trim}
use cash_count.Calendar.Civil.{Date, day_number, days_in_month}
use cash_count.Calendar.Text.{DateError, invalid_bank_date, date_of, parse_bank_date, is_dash}
use cash_count.Calendar.Shift.{day_of, bank_date_at}

pub data PeriodError : Type 0 where
  bad_date : DateError → PeriodError
  bad_uuid bad_workspace : PeriodError
  reversed_range long_range invalid_granularity : PeriodError
  invalid_mode current_reversed current_long custom_missing custom_unexpected : PeriodError
  comparison_invalid : PeriodError

abbrev pub bank_date : Text → Result PeriodError Text
bank_date t = map_err bad_date (parse_bank_date t)

-- `requireWorkspaceId`
unfoldable pub require_workspace_id : Text → Result PeriodError (Unit {0})
require_workspace_id w =
    guard (text_eq (trim w) w && not (length w == 0) && leb (length w) 100) bad_workspace

-- `requireUuid`: the pattern ignores case.
abbrev is_hex : ℕ → Bool
is_hex c = is_digit c || (leb b'a' c && leb c b'f') || (leb b'A' c && leb c b'F')

abbrev is_version : ℕ → Bool
is_version c = leb b'1' c && leb c b'5'

abbrev is_variant : ℕ → Bool
is_variant c = c == b'8' || c == b'9' || c == b'a' || c == b'b' || c == b'A' || c == b'B'

unfoldable pub is_uuid : Text → Bool
unfolding matches
is_uuid = matches (
    is_hex ∷ is_hex ∷ is_hex ∷ is_hex ∷ is_hex ∷ is_hex ∷ is_hex ∷ is_hex ∷ is_dash ∷ is_hex
    ∷ is_hex ∷ is_hex ∷ is_hex ∷ is_dash ∷ is_version ∷ is_hex ∷ is_hex ∷ is_hex ∷ is_dash
    ∷ is_variant ∷ is_hex ∷ is_hex ∷ is_hex ∷ is_dash ∷ is_hex ∷ is_hex ∷ is_hex ∷ is_hex ∷ is_hex
    ∷ is_hex ∷ is_hex ∷ is_hex ∷ is_hex ∷ is_hex ∷ is_hex ∷ is_hex ∷ [])

abbrev pub require_uuid : Option Text → Result PeriodError (Unit {0})
unfolding is_uuid
require_uuid none = ok tt
require_uuid (some t) = guard (is_uuid t) bad_uuid

abbrev pub with_default : {A : Type 0} → A → Option A → A
with_default a none = a
with_default a (some b) = b

-- `date > date` on texts.
abbrev pub is_after : Text → Text → Bool
is_after s t = not (text_leb s t)

pub data Granularity : Type 0 where
  by_day by_week by_month other_granularity : Granularity

abbrev pub is_granularity : Granularity → Bool
is_granularity other_granularity = false
is_granularity g = true

pub record SummaryInput : Type 0 where
  pub account_id : Option Text
  pub category_id : Option Text
  pub from : Text
  pub granularity : Option Granularity
  pub include_pending : Option Bool
  pub merchant_id : Option Text
  pub to : Text

pub record Summary : Type 0 where
  pub account_id : Option Text
  pub category_id : Option Text
  pub from : Text
  pub granularity : Granularity
  pub include_pending : Bool
  pub merchant_id : Option Text
  pub to : Text

-- `normalizeInput`
unfoldable pub normalize_input : SummaryInput → Result PeriodError Summary
unfolding day_of parse_bank_date is_uuid
normalize_input input = do
  from ← bank_date input.from
  to ← bank_date input.to
  guard (not (is_after from to)) reversed_range
  guard (leb (day_of to - day_of from) 366) long_range
  require_uuid input.account_id
  require_uuid input.category_id
  require_uuid input.merchant_id
  guard (is_granularity (with_default by_month input.granularity)) invalid_granularity
  ok (record {
    account_id = input.account_id;
    category_id = input.category_id;
    from = from;
    granularity = with_default by_month input.granularity;
    include_pending = with_default false input.include_pending;
    merchant_id = input.merchant_id;
    to = to;
  })

-- `dayCount` of a range whose end is not before its start.
unfoldable pub day_count : Text → Text → ℕ
unfolding day_of
day_count from to = day_of to + 1 - day_of from

-- `addDays`
unfoldable pub days_after : Text → ℕ → Result PeriodError Text
unfolding day_of bank_date_at
days_after t n = map_err bad_date (bank_date_at (pos (day_of t + n)))

unfoldable pub days_before : Text → ℕ → Result PeriodError Text
unfolding day_of bank_date_at
days_before t n = map_err bad_date (bank_date_at (sub_ℕ (day_of t) n))

-- `Date.UTC` takes the years 0 to 99 for 1900 to 1999.
abbrev pub utc_year : ℕ → ℕ
utc_year y = if ltb y 100 then 1900 + y else y

-- The day of a month, or the last day of a shorter month.
unfoldable pub clamped : ℕ → ℕ → ℕ → Date
clamped y m d = record { year = utc_year y; month = m; day = min d (days_in_month (utc_year y) m) }

-- `shiftMonth` by `-back`. A month before the year 0 is no bank date.
unfoldable pub shift_month : Text → ℕ → Result PeriodError Text
unfolding date_of bank_date_at day_number clamped
shift_month t back =
    let d = date_of t in
    let index = d.year * 12 + (d.month - 1) in
    if ltb index back
    then err (bad_date invalid_bank_date)
    else let i = index - back in
      map_err bad_date (bank_date_at (pos (day_number (clamped (i / 12) (i % 12 + 1) d.day))))

-- `shiftYear` by `-back`.
unfoldable pub shift_year : Text → ℕ → Result PeriodError Text
unfolding date_of bank_date_at day_number clamped
shift_year t back =
    let d = date_of t in
    if ltb d.year back
    then err (bad_date invalid_bank_date)
    else map_err bad_date (bank_date_at (pos (day_number (clamped (d.year - back) d.month d.day))))
