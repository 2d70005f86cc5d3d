-- ===== src/Calendar/Numbering.antt =====
-- Counting days and finding the date of a day are inverse to each other.
use cash_count.Base.{
  ℕ, zero, suc, ◌+◌, ◌-◌, ◌≤◌, ◌<◌, ◌≡◌, refl, sym, ap, ◌∙◌, subst, true, arith, leb, Bool-cases,
  inl, inr,
}
use cash_count.Calendar.Civil.{
  Date, days_before_year, days_before_month, day_number, year_at, month_at, date_at,
}
use cash_count.Calendar.Days.{
  IsDate, day_of_year, day_of_year_in_month, day_of_year_in_year, days_before_month-suc,
  days_before_year-suc, twelve_months, year_at_finds, month_at_finds,
}

year_at_holds :
    (y n : ℕ)
    → n < days_before_year (suc y)
    → (days_before_year (year_at y n) ≤ n)
      × (n < days_before_year (suc (year_at y n)))
      × (year_at y n ≤ y)
unfolding year_at
year_at_holds zero n h = (from_zero, h, omega arith)
  where
    from_zero : days_before_year 0 ≤ n
    from_zero = omega arith
year_at_holds (suc y) n h = elim (Bool-cases (leb (days_before_year (suc y)) n)) [
  | inl e ↦ rw (e, year_at) (ground arith, h, omega arith)
  | inr e ↦
      let (lo, hi, le) = year_at_holds y n (ground arith) in rw (e, year_at) (lo, hi, omega arith)
]

month_at_holds :
    (y m n : ℕ)
    → 1 ≤ m
    → n < days_before_month y (suc m)
    → (days_before_month y (month_at y m n) ≤ n)
      × (n < days_before_month y (suc (month_at y m n)))
      × (1 ≤ month_at y m n)
      × (month_at y m n ≤ m)
unfolding month_at days_before_month
month_at_holds y zero n one h = absurd (omega arith)
month_at_holds y (suc zero) n one h =
    let first : leb (days_before_month y 1) n ≡ true = ground arith in
    rw (first, month_at) (omega arith, h, omega arith, omega arith)
month_at_holds y (suc (suc m)) n one h =
    elim (Bool-cases (leb (days_before_month y (suc (suc m))) n)) [
      | inl e ↦ rw (e, month_at) (ground arith, h, omega arith, omega arith)
      | inr e ↦
          let (lo, hi, ge, le) = month_at_holds y (suc m) n (omega arith) (ground arith) in
          rw (e, month_at) (lo, hi, ge, omega arith)
    ]

-- The date that the searches lead to.
date_at_eq :
    (n y m rest : ℕ)
    → year_at 9999 n ≡ y
    → n - days_before_year y ≡ rest
    → month_at y 12 rest ≡ m
    → date_at n ≡ record { year = y; month = m; day = rest - days_before_month y m + 1 }
unfolding date_at
date_at_eq n y m rest p q r = rw (p, q, r)

pub day_number_eq : (d : Date) → day_number d ≡ days_before_year d.year + day_of_year d
unfolding day_number
day_number_eq d = omega arith

same_day : (d : Date) → IsDate d → day_of_year d - days_before_month d.year d.month + 1 ≡ d.day
same_day d v = omega (arith, v.day_in.0)

-- The date of the day with a valid date's number is that date.
pub date_at-day_number : (d : Date) → IsDate d → date_at (day_number d) ≡ d
date_at-day_number d v =
    date_at_eq (day_number d) d.year d.month (day_of_year d)
      (year_at_finds 9999 d.year (day_number d) v.year_in (omega (arith, day_number_eq d))
        (omega (arith, day_number_eq d, day_of_year_in_year d v, days_before_year-suc d.year)))
      (omega (arith, day_number_eq d))
      (month_at_finds d.year 12 d.month (day_of_year d) v.month_in.0 v.month_in.1 (omega arith)
        (day_of_year_in_month d v))
    ∙ ap (λ k. record { year = d.year; month = d.month; day = k }) (same_day d v)

-- The first day after the calendar of bank dates, 10000-01-01.
abbrev pub end_day : ℕ
end_day = 3652425

-- Every day of the calendar has a date, with the number of that day.
pub day_number-date_at : (n : ℕ) → n < end_day → IsDate (date_at n) × (day_number (date_at n) ≡ n)
unfolding days_before_year
day_number-date_at n h =
    let y = year_at 9999 n in
    let (ylo, yhi, yle) = year_at_holds 9999 n h in
    let rest = n - days_before_year y in
    let (mlo, mhi, mge, mle) =
      month_at_holds y 12 rest (omega arith)
        (omega (arith, days_before_year-suc y, twelve_months y)) in
    let m = month_at y 12 rest in
    let d : Date = record { year = y; month = m; day = rest - days_before_month y m + 1 } in
    let found : date_at n ≡ d = date_at_eq n y m rest refl refl refl in
    let valid : IsDate d = record {
      year_in = yle;
      month_in = (mge, mle);
      day_in = (omega arith, omega (arith, days_before_month-suc y m mge));
    } in
    let numbered : day_number d ≡ n = omega (arith, day_number_eq d) in
    subst (λ x. IsDate x × (day_number x ≡ n)) (sym found) (valid, numbered)
