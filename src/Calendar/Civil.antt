-- ===== src/Calendar/Civil.antt =====
-- The calendar that `Date.UTC` and `toISOString` follow: the proleptic Gregorian one. Days are
-- counted from 0000-01-01, which is day 0.
use cash_count.Base.{
  ℕ, zero, suc, ◌+◌, ◌-◌, ◌*◌, ◌/◌, ◌%◌, Bool, true, false, not, ◌&&◌, ◌||◌, leb, ◌==◌,
  if◌then◌else◌,
}

pub record Date : Type 0 where
  pub year : ℕ
  pub month : ℕ
  pub day : ℕ

unfoldable pub is_leap : ℕ → Bool
is_leap y = y % 4 == 0 && (not (y % 100 == 0) || y % 400 == 0)

unfoldable pub days_in_month : ℕ → ℕ → ℕ
unfolding is_leap
days_in_month y m =
    if m == 2
    then (if is_leap y then 29 else 28)
    else if m == 4 || m == 6 || m == 9 || m == 11
    then 30
    else 31

unfoldable pub days_in_year : ℕ → ℕ
unfolding is_leap
days_in_year y = if is_leap y then 366 else 365

-- The days before a year, and before a month of it.
unfoldable pub days_before_year : ℕ → ℕ
days_before_year y = y * 365 + (y + 3) / 4 - (y + 99) / 100 + (y + 399) / 400

unfoldable pub days_before_month : ℕ → ℕ → ℕ
unfolding days_in_month
days_before_month y zero = 0
days_before_month y (suc zero) = 0
days_before_month y (suc (suc m)) = days_before_month y (suc m) + days_in_month y (suc m)

unfoldable pub day_number : Date → ℕ
unfolding days_before_year days_before_month
day_number d = days_before_year d.year + days_before_month d.year d.month + (d.day - 1)

-- The last year from `y` down, and the last month from `m` down, that has begun on day `n`.
unfoldable pub year_at : ℕ → ℕ → ℕ
unfolding days_before_year
year_at zero n = 0
year_at (suc y) n = elim (leb (days_before_year (suc y)) n) [ true ↦ suc y | false ↦ year_at y n ]

unfoldable pub month_at : ℕ → ℕ → ℕ → ℕ
unfolding days_before_month
month_at y zero n = 0
month_at y (suc m) n = elim (leb (days_before_month y (suc m)) n) [
  | true ↦ suc m
  | false ↦ month_at y m n
]

-- The date of a day up to 9999-12-31.
unfoldable pub date_at : ℕ → Date
unfolding year_at month_at
date_at n =
    let y = year_at 9999 n in
    let rest = n - days_before_year y in
    let m = month_at y 12 rest in
    record { year = y; month = m; day = rest - days_before_month y m + 1 }

-- `isValidUtcDate`: `Date.UTC` moves the years before 100 into the twentieth century, so that no
-- date of theirs comes back; a month or a day out of range moves to another date.
unfoldable pub is_valid_date : Date → Bool
unfolding days_in_month
is_valid_date d =
    leb 100 d.year
    && leb 1 d.month
    && leb d.month 12
    && leb 1 d.day
    && leb d.day (days_in_month d.year d.month)
