-- ===== src/Periods/Months.antt =====
-- Where `shiftMonth` and `shiftYear` lead: to the same day of the earlier month, or to its last day.
use cash_count.Base.{
  ℕ, ◌+◌, ◌-◌, ◌*◌, ◌/◌, ◌%◌, min, ◌≤◌, ◌<◌, ◌≡◌, refl, sym, ap, ◌∙◌, subst, false, arith, ltb,
}
use cash_count.Base.Int.{pos}
use cash_count.Base.Results.{ok}
use cash_count.Base.Text.{Text}
use cash_count.Calendar.Civil.{Date, day_number, date_at, days_in_month}
use cash_count.Calendar.Days.{IsDate}
use cash_count.Calendar.Numbering.{date_at-day_number}
use cash_count.Calendar.RoundTrip.{IsBankDate, parse_bank_date-IsBankDate}
use cash_count.Calendar.Text.{date_of}
use cash_count.Calendar.Shift.{day_of, bank_date_at}
use cash_count.Calendar.Arithmetic.{IsBankText, day_bounds, bank_date_at_day}
use cash_count.Periods.Ranges.{clamped, utc_year, shift_month, shift_year}
use cash_count.Periods.Results.{
  month_index, month_target, year_target, shift_month_day, shift_year_day,
}

month_long : (y m : ℕ) → 28 ≤ days_in_month y m
unfolding days_in_month
month_long y m = ground arith

clamped-IsDate : (y m d : ℕ) → y ≤ 9999 → 1 ≤ m → m ≤ 12 → 1 ≤ d → IsDate (clamped y m d)
unfolding clamped
clamped-IsDate y m d hy h1 h12 hd = record {
  year_in = ground arith;
  month_in = (h1, h12);
  day_in = (omega (arith, month_long (utc_year y) m), omega arith);
}

-- Dates of one day are the same date.
same_date :
    (t : Text) (d : Date)
    → IsBankText t
    → IsDate d
    → pos (day_number d) ≡ pos (day_of t)
    → date_of t ≡ d
unfolding day_of
same_date t d h v e =
    let (p, w, q) = parse_bank_date-IsBankDate t t h in
    let days : day_number d ≡ day_number (date_of t) = cc in
    cc (date_at-day_number (date_of t) w.is_date, date_at-day_number d v, ap date_at days)

fields : (t : Text) → IsBankText t → IsBankDate (date_of t)
fields t h = (parse_bank_date-IsBankDate t t h).1

not_before : (m n : ℕ) → n ≤ m → ltb m n ≡ false
not_before m n h = ground arith

shift_month-date :
    (t u : Text) (back : ℕ)
    → IsBankText t
    → shift_month t back ≡ ok u
    → date_of u ≡ month_target t back
shift_month-date t u back h k =
    let (bank, day) = shift_month_day t u back k in
    let v = fields t h in
    let i = month_index t - back in
    let d = (date_of t).day in
    same_date u (month_target t back) bank
      (clamped-IsDate (i / 12) (i % 12 + 1) d
        (omega (arith, v.is_date.year_in, v.is_date.month_in.1)) (omega arith) (omega arith)
        (v.is_date.day_in.0))
      day

-- The month of a date that `clamped` leaves in its year.
clamped_fields :
    (y m d : ℕ)
    → 100 ≤ y
    → clamped y m d ≡ record { year = y; month = m; day = min d (days_in_month y m) }
unfolding clamped
clamped_fields y m d h = ground arith

clamped-IsBankDate : (y m d : ℕ) → y ≤ 9999 → 1 ≤ m → m ≤ 12 → 1 ≤ d → IsBankDate (clamped y m d)
unfolding clamped
clamped-IsBankDate y m d hy h1 h12 hd = record {
  is_date = clamped-IsDate y m d hy h1 h12 hd;
  year_from = ground arith;
}

reached :
    (y m d : ℕ)
    → y ≤ 9999
    → 1 ≤ m
    → m ≤ 12
    → 1 ≤ d
    → (u : Text) × (bank_date_at (pos (day_number (clamped y m d))) ≡ ok u)
reached y m d hy h1 h12 hd =
    let (lo, hi) = day_bounds (clamped y m d) (clamped-IsBankDate y m d hy h1 h12 hd) in
    let (u, p, q, r) = bank_date_at_day (day_number (clamped y m d)) lo hi in (u, p)

shift_month_returns :
    (t : Text) (back : ℕ)
    → IsBankText t
    → back ≤ month_index t
    → (u : Text) × (shift_month t back ≡ ok u)
unfolding shift_month
shift_month_returns t back h far =
    let v = fields t h in
    let i = month_index t - back in
    let in_range : ltb (month_index t) back ≡ false = not_before (month_index t) back far in
    let (u, p) =
      reached (i / 12) (i % 12 + 1) (date_of t).day
        (omega (arith, v.is_date.year_in, v.is_date.month_in.1)) (omega arith) (omega arith)
        (v.is_date.day_in.0) in
    (u, rw (in_range, p) refl)

-- A date can be moved back by any number of months that leads to a month of the year 100 or later. It
-- comes to that month; its day stays, or is the last day of a shorter month.
pub shift_month_lands :
    (t : Text) (back : ℕ)
    → IsBankText t
    → 1200 + back ≤ month_index t
    → (u : Text) × (shift_month t back ≡ ok u)
      × IsBankText u
      × (month_index u + back ≡ month_index t)
      × ((date_of u).day ≡ min (date_of t).day (days_in_month (date_of u).year (date_of u).month))
shift_month_lands t back h far =
    let (u, k) = shift_month_returns t back h (omega arith) in
    let i = month_index t - back in
    let d = (date_of t).day in
    let found =
      shift_month-date t u back h k ∙ clamped_fields (i / 12) (i % 12 + 1) d (omega arith) in
    let (same_month, day) =
      subst
        (λ x.
          (x.year * 12 + (x.month - 1) + back ≡ month_index t)
          × (x.day ≡ min d (days_in_month x.year x.month)))
        (sym found) (omega arith, refl) in
    (u, k, (shift_month_day t u back k).0, same_month, day)

-- A date that is moved back to a month of the years 0 to 99 comes to that month of the twentieth
-- century instead.
pub shift_month_early :
    (t u : Text) (back : ℕ)
    → IsBankText t
    → shift_month t back ≡ ok u
    → month_index t < 1200 + back
    → (date_of u).year ≡ 1900 + (month_index t - back) / 12
unfolding clamped
shift_month_early t u back h k near =
    let found = ap (λ (x : Date). x.year) (shift_month-date t u back h k) in found ∙ ground arith

shift_year_returns :
    (t : Text) (back : ℕ)
    → IsBankText t
    → back ≤ (date_of t).year
    → (u : Text) × (shift_year t back ≡ ok u)
unfolding shift_year
shift_year_returns t back h far =
    let v = fields t h in
    let in_range : ltb (date_of t).year back ≡ false = not_before (date_of t).year back far in
    let (u, p) =
      reached ((date_of t).year - back) (date_of t).month (date_of t).day
        (omega (arith, v.is_date.year_in)) (v.is_date.month_in.0) (v.is_date.month_in.1)
        (v.is_date.day_in.0) in
    (u, rw (in_range, p) refl)

-- The same for years: the date moves to the same month of the earlier year.
pub shift_year_lands :
    (t : Text) (back : ℕ)
    → IsBankText t
    → 100 + back ≤ (date_of t).year
    → (u : Text) × (shift_year t back ≡ ok u)
      × IsBankText u
      × ((date_of u).year + back ≡ (date_of t).year)
      × ((date_of u).month ≡ (date_of t).month)
      × ((date_of u).day ≡ min (date_of t).day (days_in_month (date_of u).year (date_of u).month))
shift_year_lands t back h far =
    let (u, k) = shift_year_returns t back h (omega arith) in
    let (bank, day) = shift_year_day t u back k in
    let v = fields t h in
    let x = date_of t in
    let y = x.year - back in
    let landed =
      same_date u (year_target t back) bank
        (clamped-IsDate y x.month x.day (omega (arith, v.is_date.year_in)) (v.is_date.month_in.0)
          (v.is_date.month_in.1) (v.is_date.day_in.0))
        day in
    let found = landed ∙ clamped_fields y x.month x.day (omega arith) in
    let (year, month, last) =
      subst
        (λ z.
          (z.year + back ≡ x.year)
          × (z.month ≡ x.month)
          × (z.day ≡ min x.day (days_in_month z.year z.month)))
        (sym found) (omega arith, refl, refl) in
    (u, k, bank, year, month, last)
