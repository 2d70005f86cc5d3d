-- ===== src/Calendar/Arithmetic.antt =====
-- Moving a bank date by days.
use cash_count.Base.{
  ℕ, suc, ◌+◌, ◌≤◌, ◌<◌, ◌≡◌, ◌↔◌, sym, ap, ◌∙◌, subst, true, false, arith, leb, ltb, Bool-cases,
  inl, inr,
}
use cash_count.Base.Int.{ℤ, pos, negsuc}
use cash_count.Base.Numbers.{integer}
use cash_count.Base.Results.{ok}
use cash_count.Base.Text.{Text, text_leb}
use cash_count.Calendar.Civil.{Date, day_number, date_at, days_before_year}
use cash_count.Calendar.Days.{days_before_year-suc, day_of_year_in_year}
use cash_count.Calendar.Numbering.{end_day, day_number_eq, day_number-date_at, date_at-day_number}
use cash_count.Calendar.Order.{date_text-order}
use cash_count.Calendar.RoundTrip.{
  IsBankDate, date_of-date_text, parse_bank_date-date_text, parse_bank_date-IsBankDate,
}
use cash_count.Calendar.Text.{date_of, date_text, parse_bank_date}
use cash_count.Calendar.Shift.{
  epoch_day, reach, day_of, bank_date_at, shifted, is_safe, add_bank_days,
}

-- The day of 0100-01-01.
abbrev pub first_day : ℕ
first_day = 36525

-- A text that `parseBankDate` accepts.
abbrev pub IsBankText : Text → Type 0
IsBankText t = parse_bank_date t ≡ ok t

-- The years from 100 to 9999 are the days from the first to the end.
pub day_bounds : (d : Date) → IsBankDate d → (first_day ≤ day_number d) × (day_number d < end_day)
unfolding days_before_year
day_bounds d v = omega (
  arith,
  day_number_eq d,
  day_of_year_in_year d v.is_date,
  days_before_year-suc d.year,
  v.year_from,
  v.is_date.year_in,
)

pub day_of_bounds : (t : Text) → IsBankText t → (first_day ≤ day_of t) × (day_of t < end_day)
unfolding day_of
day_of_bounds t h = day_bounds (date_of t) (parse_bank_date-IsBankDate t t h).1

year_from_day : (n : ℕ) → first_day ≤ n → n < end_day → IsBankDate (date_at n)
unfolding days_before_year
year_from_day n lo hi =
    let (valid, numbered) = day_number-date_at n hi in
    record {
      is_date = valid;
      year_from = omega (
        arith,
        numbered,
        day_number_eq (date_at n),
        day_of_year_in_year (date_at n) valid,
        days_before_year-suc (date_at n).year,
      );
    }

in_reach : (n : ℕ) → n < end_day → (ltb (epoch_day + reach) n ≡ false) × (leb end_day n ≡ false)
in_reach n h = (ground arith, ground arith)

before_end : (n : ℕ) → leb end_day n ≡ false → n < end_day
before_end n h = ground arith

-- A day of the years from 100 to 9999 is returned as the bank date of that day.
pub bank_date_at_day :
    (n : ℕ)
    → first_day ≤ n
    → n < end_day
    → (u : Text) × (bank_date_at (pos n) ≡ ok u) × IsBankText u × (day_of u ≡ n)
unfolding bank_date_at day_of
bank_date_at_day n lo hi =
    let d = date_at n in
    let (parsed, same) = parse_bank_date-date_text d (year_from_day n lo hi) in
    let (near, below) = in_reach n hi in
    (date_text d, rw (near, below) parsed, parsed, ap day_number same ∙ (day_number-date_at n hi).1)

-- Two bank dates of one day are one text.
pub day_of_injective : (t u : Text) → IsBankText t → IsBankText u → day_of t ≡ day_of u → t ≡ u
unfolding day_of
day_of_injective t u h k e =
    let (p, v, q) = parse_bank_date-IsBankDate t t h in
    let (r, w, s) = parse_bank_date-IsBankDate u u k in
    let dates : date_of t ≡ date_of u =
      cc (date_at-day_number (date_of t) v.is_date, date_at-day_number (date_of u) w.is_date) in
    cc

printed_day :
    (n : ℕ) (u : Text)
    → n < end_day
    → parse_bank_date (date_text (date_at n)) ≡ ok u
    → IsBankText u × (pos n ≡ pos (day_of u))
unfolding day_of
printed_day n u h parsed =
    let (valid, numbered) = day_number-date_at n h in
    let (same, v, again) = parse_bank_date-IsBankDate (date_text (date_at n)) u parsed in
    let read = date_of-date_text (date_at n) valid in
    (subst (λ x. parse_bank_date x ≡ ok u) (sym same) parsed, cc)

-- What is returned is a bank date of that day.
pub bank_date_at_returned :
    (z : ℤ) (u : Text) → bank_date_at z ≡ ok u → IsBankText u × (z ≡ pos (day_of u))
unfolding bank_date_at
bank_date_at_returned (negsuc n) u h = elim (Bool-cases (ltb reach (epoch_day + suc n))) [
  | inl e ↦ absurd (cc (rw e at h))
  | inr e ↦ absurd (cc (rw e at h))
]
bank_date_at_returned (pos n) u h = elim (Bool-cases (ltb (epoch_day + reach) n)) [
  | inl e ↦ absurd (cc (rw e at h))
  | inr e ↦ elim (Bool-cases (leb end_day n)) [
    | inl f ↦ absurd (cc (rw (e, f) at h))
    | inr f ↦ printed_day n u (before_end n f) (rw (e, f) at h)
  ]
]

-- Adding days to a bank date returns a text exactly if it is the bank date that many days later, or
-- earlier: the sum is exact, and it fails only where no bank date has that day.
pub add_bank_days-exact :
    (t u : Text) (z : ℤ)
    → IsBankText t
    → is_safe z ≡ true
    → (add_bank_days t (integer z) ≡ ok u)
      ↔ (IsBankText u × (shifted (day_of t) z ≡ pos (day_of u)))
unfolding add_bank_days
add_bank_days-exact t u z h safe = (
  λ k. bank_date_at_returned (shifted (day_of t) z) u (rw safe at k),
  λ k.
      let (lo, hi) = day_of_bounds u k.0 in
      let (w, p, q, r) = bank_date_at_day (day_of u) lo hi in
      let same = day_of_injective w u q k.0 r in rw (safe, k.1) (p ∙ ap ok same),
)

-- Two bank dates are ordered as strings exactly as their days are.
pub text_leb-day_of :
    (t u : Text) → IsBankText t → IsBankText u → text_leb t u ≡ leb (day_of t) (day_of u)
unfolding day_of
text_leb-day_of t u h k =
    let (_, p, written) = parse_bank_date-IsBankDate t t h in
    let (_, q, printed) = parse_bank_date-IsBankDate u u k in
    ap (λ x. text_leb x u) (sym written)
    ∙ ap (λ x. text_leb (date_text (date_of t)) x) (sym printed)
    ∙ date_text-order (date_of t) (date_of u) p.is_date q.is_date
