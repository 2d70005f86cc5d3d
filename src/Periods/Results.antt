-- ===== src/Periods/Results.antt =====
-- The ranges that the modes of a comparison lead to.
use cash_count.Base.{
  ℕ, ◌+◌, ◌-◌, ◌*◌, ◌/◌, ◌%◌, ◌≡◌, subst, Bool, true, false, Option, none, some, arith, ltb,
  Bool-cases, inl, inr,
}
use cash_count.Base.Int.{ℤ, pos}
use cash_count.Base.Results.{Result, ok, ◌>>=◌, ◌>>◌, guard, >>=-eq-ok, map_err, map_err-eq-ok}
use cash_count.Base.Text.{Text}
use cash_count.Calendar.Civil.{Date, day_number}
use cash_count.Calendar.Text.{date_of}
use cash_count.Calendar.Shift.{day_of, bank_date_at}
use cash_count.Calendar.Arithmetic.{IsBankText, bank_date_at_returned}
use cash_count.Periods.Ranges.{
  PeriodError, bad_date, custom_unexpected, bank_date, day_count, days_before, shift_month,
  shift_year, clamped,
}
use cash_count.Periods.Comparison.{
  Mode, previous_period, previous_month, previous_year, custom, other_mode, Range, range,
  custom_range, calculated_range, comparison_range,
}
use cash_count.Periods.Bounds.{IsOrdered, bank_date-IsBankText, day_count_eq, days_before_returned}

-- Both ends of a range are bank dates.
abbrev pub HasBankDates : Range → Type 0
HasBankDates r = IsBankText r.from × IsBankText r.to

at_day :
    (z : ℤ) (u : Text)
    → map_err bad_date (bank_date_at z) ≡ ok u
    → IsBankText u × (z ≡ pos (day_of u))
at_day z u h = bank_date_at_returned z u (map_err-eq-ok bad_date (bank_date_at z) h)

-- The months before a date's month, from the year 0.
abbrev pub month_index : Text → ℕ
month_index t = (date_of t).year * 12 + ((date_of t).month - 1)

-- The date that the shifts aim at.
abbrev pub month_target : Text → ℕ → Date
month_target t back = let i = month_index t - back in clamped (i / 12) (i % 12 + 1) (date_of t).day

abbrev pub year_target : Text → ℕ → Date
year_target t back = clamped ((date_of t).year - back) (date_of t).month (date_of t).day

pub shift_month_day :
    (t u : Text) (back : ℕ)
    → shift_month t back ≡ ok u
    → IsBankText u × (pos (day_number (month_target t back)) ≡ pos (day_of u))
unfolding shift_month
shift_month_day t u back h = elim (Bool-cases (ltb (month_index t) back)) [
  | inl e ↦ absurd (cc (rw e at h))
  | inr e ↦ at_day (pos (day_number (month_target t back))) u (rw e at h)
]

pub shift_year_day :
    (t u : Text) (back : ℕ)
    → shift_year t back ≡ ok u
    → IsBankText u × (pos (day_number (year_target t back)) ≡ pos (day_of u))
unfolding shift_year
shift_year_day t u back h = elim (Bool-cases (ltb (date_of t).year back)) [
  | inl e ↦ absurd (cc (rw e at h))
  | inr e ↦ at_day (pos (day_number (year_target t back))) u (rw e at h)
]

-- Two steps that each return a bank date.
both_dates :
    (m n : Result PeriodError Text) (r : Range)
    → ((u : Text) → m ≡ ok u → IsBankText u)
    → ((u : Text) → n ≡ ok u → IsBankText u)
    → (m >>= (λ from. n >>= (λ to. ok (range from to)))) ≡ ok r
    → HasBankDates r
both_dates m n r f g h =
    let (a, p, h1) = >>=-eq-ok m _ h in
    let (b, q, h2) = >>=-eq-ok n _ h1 in
    let same : range a b ≡ r = cc h2 in subst HasBankDates same (f a p, g b q)

custom_range-HasBankDates :
    (from to : Option Text) (r : Range) → custom_range from to ≡ ok r → HasBankDates r
unfolding custom_range
custom_range-HasBankDates (some from) (some to) r h =
    both_dates (bank_date from) (bank_date to) r (λ u k. (bank_date-IsBankText from u k).1)
      (λ u k. (bank_date-IsBankText to u k).1) h
custom_range-HasBankDates none to r h = absurd (cc)
custom_range-HasBankDates (some from) none r h = absurd (cc)

-- The range before `current` ends the day before it and has as many days.
abbrev pub IsPrevious : Range → Range → Type 0
IsPrevious current r =
    (day_of r.to + 1 ≡ day_of current.from)
    × (day_count r.from r.to ≡ day_count current.from current.to)

pub previous_period-IsPrevious :
    (current r : Range)
    → IsOrdered current
    → calculated_range previous_period current ≡ ok r
    → HasBankDates r × IsPrevious current r
unfolding calculated_range
previous_period-IsPrevious current r v h =
    let days = day_count current.from current.to - 1 in
    let (to, p, h1) = >>=-eq-ok (days_before current.from 1) _ h in
    let (from, q, h2) = >>=-eq-ok (days_before to days) _ h1 in
    let same : range from to ≡ r = cc h2 in
    let (to_date, before) = days_before_returned current.from to 1 p in
    let (from_date, back) = days_before_returned to from days q in
    subst (λ x. HasBankDates x × IsPrevious current x) same
      (
        (from_date, to_date),
        (
          before,
          omega (arith, v.in_order, day_count_eq from to, day_count_eq current.from current.to),
        ),
      )

calculated_range-HasBankDates :
    (mode : Mode) (current r : Range)
    → IsOrdered current
    → calculated_range mode current ≡ ok r
    → HasBankDates r
unfolding calculated_range
calculated_range-HasBankDates previous_period current r v h =
    (previous_period-IsPrevious current r v h).0
calculated_range-HasBankDates previous_month current r v h =
    both_dates _ _ r (λ u k. (shift_month_day current.from u 1 k).0)
      (λ u k. (shift_month_day current.to u 1 k).0) h
calculated_range-HasBankDates previous_year current r v h =
    both_dates _ _ r (λ u k. (shift_year_day current.from u 1 k).0)
      (λ u k. (shift_year_day current.to u 1 k).0) h
calculated_range-HasBankDates custom current r v h =
    both_dates _ _ r (λ u k. (shift_year_day current.from u 1 k).0)
      (λ u k. (shift_year_day current.to u 1 k).0) h
calculated_range-HasBankDates other_mode current r v h =
    both_dates _ _ r (λ u k. (shift_year_day current.from u 1 k).0)
      (λ u k. (shift_year_day current.to u 1 k).0) h

calculated_only :
    (b : Bool) (mode : Mode) (current r : Range)
    → IsOrdered current
    → (guard b custom_unexpected >> calculated_range mode current) ≡ ok r
    → HasBankDates r
calculated_only true mode current r v h = calculated_range-HasBankDates mode current r v h
calculated_only false mode current r v h = absurd (cc)

pub comparison_range-HasBankDates :
    (mode : Mode) (from to : Option Text) (current r : Range)
    → IsOrdered current
    → comparison_range mode from to current ≡ ok r
    → HasBankDates r
unfolding comparison_range
comparison_range-HasBankDates custom from to current r v h = custom_range-HasBankDates from to r h
comparison_range-HasBankDates previous_period from to current r v h =
    calculated_only _ previous_period current r v h
comparison_range-HasBankDates previous_month from to current r v h =
    calculated_only _ previous_month current r v h
comparison_range-HasBankDates previous_year from to current r v h =
    calculated_only _ previous_year current r v h
comparison_range-HasBankDates other_mode from to current r v h =
    calculated_only _ other_mode current r v h
