-- ===== src/Calendar/RoundTrip.antt =====
-- Printing a date and reading it back, and the other way round.
use cash_count.Base.{
  ℕ, ◌/◌, ◌%◌, ◌≤◌, ◌<◌, ◌≡◌, refl, sym, subst, Bool, true, List, [], ◌∷◌, arith, Bool-cases, inl,
  inr,
}
use cash_count.Base.Results.{ok}
use cash_count.Base.Text.{Text, matches, is_digit}
use cash_count.Calendar.Civil.{Date, is_valid_date, days_in_month}
use cash_count.Calendar.Days.{IsDate}
use cash_count.Calendar.Text.{
  date_of, date_text, parse_bank_date, number_from, bank_date_pattern, is_dash, digit, two_digits,
}

-- A date in the years that bank dates may have.
pub record IsBankDate (d : Date) : Type 0 where
  pub is_date : IsDate d
  pub year_from : 100 ≤ d.year

pub is_valid_date_lem : (d : Date) → IsBankDate d → is_valid_date d ≡ true
unfolding is_valid_date
is_valid_date_lem d v =
    ground (arith, v.is_date.year_in, v.is_date.month_in, v.is_date.day_in, v.year_from)

two_digits_read : (n : ℕ) → n < 100 → number_from 0 (two_digits n []) ≡ n
unfolding number_from
two_digits_read n h = omega arith

four_digits_read :
    (y : ℕ) → y ≤ 9999 → number_from 0 (two_digits (y / 100) (two_digits (y % 100) [])) ≡ y
unfolding number_from
four_digits_read y h = omega arith

pub small_month : (y m : ℕ) → days_in_month y m ≤ 31
unfolding days_in_month
small_month y m = ground arith

pub day_small : (d : Date) → IsDate d → d.day < 100
day_small d v = omega (arith, v.day_in.1, small_month d.year d.month)

-- The fields of a date, as they are printed, are read back.
pub date_of-date_text : (d : Date) → IsDate d → date_of (date_text d) ≡ d
unfolding date_of date_text
date_of-date_text d v =
    let y = four_digits_read d.year v.year_in in
    let m = two_digits_read d.month (omega (arith, v.month_in.1)) in
    let k = two_digits_read d.day (day_small d v) in
    λ i. record { year = y i; month = m i; day = k i }

date_text-matches : (d : Date) → IsDate d → matches bank_date_pattern (date_text d) ≡ true
unfolding date_text matches
date_text-matches d v = ground (arith, v.year_in, v.month_in.1, day_small d v)

-- A printed date of the years from 100 is a bank date, and reads back as the date.
pub parse_bank_date-date_text :
    (d : Date)
    → IsBankDate d
    → (parse_bank_date (date_text d) ≡ ok (date_text d)) × (date_of (date_text d) ≡ d)
unfolding parse_bank_date
parse_bank_date-date_text d v =
    let shape = date_text-matches d v.is_date in
    let same = date_of-date_text d v.is_date in
    let valid = subst (λ x. is_valid_date x ≡ true) (sym same) (is_valid_date_lem d v) in
    (rw (shape, valid), same)

uncons :
    (p : ℕ → Bool) (ps : List (ℕ → Bool)) (t : Text)
    → matches (p ∷ ps) t ≡ true
    → (c : ℕ) × (cs : Text) × (t ≡ c ∷ cs) × (p c ≡ true) × (matches ps cs ≡ true)
unfolding matches
uncons p ps [] h = absurd (cc)
uncons p ps (c ∷ cs) h = (c, cs, refl, ground arith, ground arith)

-- Two characters that are digits are printed as they were read.
two_printed :
    (a b : ℕ) (rest : Text)
    → is_digit a ≡ true
    → is_digit b ≡ true
    → two_digits (number_from 0 (a ∷ b ∷ [])) rest ≡ a ∷ b ∷ rest
unfolding number_from
two_printed a b rest h k =
    let tens : digit (number_from 0 (a ∷ b ∷ []) / 10) ≡ a = ground arith in
    let ones : digit (number_from 0 (a ∷ b ∷ []) % 10) ≡ b = ground arith in
    λ i. tens i ∷ ones i ∷ rest

halves :
    (a b c e : ℕ)
    → is_digit a ≡ true
    → is_digit b ≡ true
    → is_digit c ≡ true
    → is_digit e ≡ true
    → (number_from 0 (a ∷ b ∷ c ∷ e ∷ []) / 100 ≡ number_from 0 (a ∷ b ∷ []))
      × (number_from 0 (a ∷ b ∷ c ∷ e ∷ []) % 100 ≡ number_from 0 (c ∷ e ∷ []))
unfolding number_from
halves a b c e h k l m = ground arith

four_printed :
    (a b c e : ℕ) (rest : Text)
    → is_digit a ≡ true
    → is_digit b ≡ true
    → is_digit c ≡ true
    → is_digit e ≡ true
    → (let y = number_from 0 (a ∷ b ∷ c ∷ e ∷ []) in
        two_digits (y / 100) (two_digits (y % 100) rest) ≡ a ∷ b ∷ c ∷ e ∷ rest)
four_printed a b c e rest h k l m =
    let (hi, lo) = halves a b c e h k l m in
    rw (hi, lo, two_printed c e rest l m) (two_printed a b (c ∷ e ∷ rest) h k)

ten_printed :
    (a b c e f g i j : ℕ)
    → is_digit a ≡ true
    → is_digit b ≡ true
    → is_digit c ≡ true
    → is_digit e ≡ true
    → is_digit f ≡ true
    → is_digit g ≡ true
    → is_digit i ≡ true
    → is_digit j ≡ true
    → (let t = a ∷ b ∷ c ∷ e ∷ b'-' ∷ f ∷ g ∷ b'-' ∷ i ∷ j ∷ [] in date_text (date_of t) ≡ t)
unfolding date_of date_text
ten_printed a b c e f g i j ha hb hc he hf hg hi hj =
    rw (two_printed i j [] hi hj, two_printed f g (b'-' ∷ i ∷ j ∷ []) hf hg)
      (four_printed a b c e (b'-' ∷ f ∷ g ∷ b'-' ∷ i ∷ j ∷ []) ha hb hc he)

is_dash_eq : (c : ℕ) → is_dash c ≡ true → c ≡ b'-'
is_dash_eq c h = ground arith

matches_nothing : (t : Text) → matches [] t ≡ true → t ≡ []
unfolding matches
matches_nothing [] h = refl
matches_nothing (c ∷ cs) h = cc

-- A text of the pattern is printed as it was read.
pub date_text-date_of : (t : Text) → matches bank_date_pattern t ≡ true → date_text (date_of t) ≡ t
date_text-date_of t h =
    let (a, t1, q1, ha, h1) = uncons _ _ t h in
    let (b, t2, q2, hb, h2) = uncons _ _ t1 h1 in
    let (c, t3, q3, hc, h3) = uncons _ _ t2 h2 in
    let (e, t4, q4, he, h4) = uncons _ _ t3 h3 in
    let (d1, t5, q5, hd1, h5) = uncons _ _ t4 h4 in
    let (f, t6, q6, hf, h6) = uncons _ _ t5 h5 in
    let (g, t7, q7, hg, h7) = uncons _ _ t6 h6 in
    let (d2, t8, q8, hd2, h8) = uncons _ _ t7 h7 in
    let (i, t9, q9, hi, h9) = uncons _ _ t8 h8 in
    let (j, t10, q10, hj, h10) = uncons _ _ t9 h9 in
    let whole : a ∷ b ∷ c ∷ e ∷ b'-' ∷ f ∷ g ∷ b'-' ∷ i ∷ j ∷ [] ≡ t =
      cc (is_dash_eq d1 hd1, is_dash_eq d2 hd2, matches_nothing t10 h10) in
    subst (λ x. date_text (date_of x) ≡ x) whole
      (ten_printed a b c e f g i j ha hb hc he hf hg hi hj)

is_valid_date-IsBankDate : (d : Date) → is_valid_date d ≡ true → d.year ≤ 9999 → IsBankDate d
unfolding is_valid_date
is_valid_date-IsBankDate d h y = record {
  is_date = record { year_in = y; month_in = ground arith; day_in = ground arith };
  year_from = ground arith;
}

printed_year : (d : Date) → matches bank_date_pattern (date_text d) ≡ true → d.year ≤ 9999
unfolding date_text matches
printed_year d h = ground arith

four_digit_year : (t : Text) → matches bank_date_pattern t ≡ true → (date_of t).year ≤ 9999
four_digit_year t h =
    printed_year (date_of t)
      (subst (λ x. matches bank_date_pattern x ≡ true) (sym (date_text-date_of t h)) h)

-- What `parseBankDate` returns is its argument, the printed form of a valid date.
pub parse_bank_date-IsBankDate :
    (t u : Text)
    → parse_bank_date t ≡ ok u
    → (u ≡ t) × IsBankDate (date_of t) × (date_text (date_of t) ≡ t)
unfolding parse_bank_date
parse_bank_date-IsBankDate t u h = elim (Bool-cases (matches bank_date_pattern t)) [
  | inl m ↦ elim (Bool-cases (is_valid_date (date_of t))) [
    | inl v ↦ (
      cc (rw (m, v) at h),
      is_valid_date-IsBankDate (date_of t) v (four_digit_year t m),
      date_text-date_of t m,
    )
    | inr v ↦ absurd (cc (rw (m, v) at h))
  ]
  | inr m ↦ absurd (cc (rw m at h))
]
