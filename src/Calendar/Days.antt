-- ===== src/Calendar/Days.antt =====
-- Valid dates and day numbers correspond, and the numbers follow the calendar.
use native.Mathlib.Nat.{le_refl}
use native.Mathlib.Decide.{le_ind}
use cash_count.Base.{ℕ, zero, suc, ◌+◌, ◌-◌, ◌≤◌, ◌<◌, ◌≡◌, refl, arith, leb, Bool-cases, inl, inr}
use cash_count.Calendar.Civil.{
  Date, is_leap, days_in_month, days_in_year, days_before_year, days_before_month, year_at,
  month_at,
}

-- A date of the calendar, in a year that a bank date may have.
pub record IsDate (d : Date) : Type 0 where
  pub year_in : d.year ≤ 9999
  pub month_in : (1 ≤ d.month) × (d.month ≤ 12)
  pub day_in : (1 ≤ d.day) × (d.day ≤ days_in_month d.year d.month)

pub days_before_year-suc : (y : ℕ) → days_before_year (suc y) ≡ days_before_year y + days_in_year y
unfolding days_before_year days_in_year is_leap
days_before_year-suc y = ground arith

pub days_before_month-suc :
    (y m : ℕ) → 1 ≤ m → days_before_month y (suc m) ≡ days_before_month y m + days_in_month y m
unfolding days_before_month
days_before_month-suc y zero h = absurd (omega arith)
days_before_month-suc y (suc m) h = refl

pub twelve_months : (y : ℕ) → days_before_month y 13 ≡ days_in_year y
unfolding days_before_month days_in_month days_in_year
twelve_months y = ground arith

pub days_before_year_mono : (y z : ℕ) → y ≤ z → days_before_year y ≤ days_before_year z
unfolding days_before_year
days_before_year_mono y z h = omega arith

pub days_before_month_mono :
    (y m n : ℕ) → 1 ≤ m → m ≤ n → days_before_month y m ≤ days_before_month y n
days_before_month_mono y m n h =
    le_ind (λ k. days_before_month y m ≤ days_before_month y k) (le_refl _)
      (λ k le ih. omega (arith, days_before_month-suc y k (omega arith))) n

-- The days of a year before one of its dates, that date's own day left out.
abbrev pub day_of_year : Date → ℕ
day_of_year d = days_before_month d.year d.month + (d.day - 1)

-- A date lies in its month, and its month in its year.
pub day_of_year_in_month :
    (d : Date) → IsDate d → day_of_year d < days_before_month d.year (suc d.month)
day_of_year_in_month d v =
    omega (arith, days_before_month-suc d.year d.month v.month_in.0, v.day_in.0, v.day_in.1)

pub day_of_year_in_year : (d : Date) → IsDate d → day_of_year d < days_in_year d.year
day_of_year_in_year d v = omega (
  arith,
  day_of_year_in_month d v,
  days_before_month_mono d.year (suc d.month) 13 (omega arith) (omega (arith, v.month_in.1)),
  twelve_months d.year,
)

-- The searches find the year and the month that a day lies in.
pub year_at_finds :
    (y k n : ℕ) → k ≤ y → days_before_year k ≤ n → n < days_before_year (suc k) → year_at y n ≡ k
unfolding year_at
year_at_finds zero k n h lo hi = omega arith
year_at_finds (suc y) k n h lo hi = elim (Bool-cases (leb (days_before_year (suc y)) n)) [
  | inl e ↦ rw (e, year_at) (ground (arith, days_before_year_mono (suc k) (suc y)))
  | inr e ↦ rw (e, year_at) (year_at_finds y k n (ground arith) lo hi)
]

pub month_at_finds :
    (y m k n : ℕ)
    → 1 ≤ k
    → k ≤ m
    → days_before_month y k ≤ n
    → n < days_before_month y (suc k)
    → month_at y m n ≡ k
unfolding month_at
month_at_finds y zero k n one h lo hi = omega arith
month_at_finds y (suc m) k n one h lo hi = elim (Bool-cases (leb (days_before_month y (suc m)) n)) [
  | inl e ↦ rw (e, month_at) (ground (arith, days_before_month_mono y (suc k) (suc m)))
  | inr e ↦ rw (e, month_at) (month_at_finds y m k n one (ground arith) lo hi)
]
