-- ===== src/Calendar/Order.antt =====
-- The order of bank dates as texts, which the code compares by `<` and `>`, is that of the calendar.
use cash_count.Base.{
  ℕ, suc, ◌+◌, ◌-◌, ◌/◌, ◌%◌, ◌≤◌, ◌<◌, ◌≡◌, ap, ◌∙◌, subst, Bool, ◌&&◌, ◌||◌, [], ◌∷◌, arith, leb,
  ltb, ◌==◌,
}
use cash_count.Base.Text.{Text, text_leb}
use cash_count.Calendar.Civil.{Date, day_number, days_before_year, days_before_month}
use cash_count.Calendar.Days.{
  IsDate, day_of_year_in_month, day_of_year_in_year, days_before_year_mono, days_before_month_mono,
  days_before_year-suc,
}
use cash_count.Calendar.Numbering.{day_number_eq}
use cash_count.Calendar.RoundTrip.{day_small}
use cash_count.Calendar.Text.{date_text, two_digits}

-- Two digits before any rest compare as their number.
two_digits_leb :
    (m n : ℕ) (s t : Text)
    → m < 100
    → n < 100
    → text_leb (two_digits m s) (two_digits n t) ≡ (ltb m n || (m == n && text_leb s t))
unfolding text_leb
two_digits_leb m n s t h k = ground arith

same_char_leb : (c : ℕ) (s t : Text) → text_leb (c ∷ s) (c ∷ t) ≡ text_leb s t
unfolding text_leb
same_char_leb c s t = ground arith

-- The fields, from the year to the day.
abbrev pub date_leb : Date → Date → Bool
date_leb a b =
    ltb a.year b.year
    || (a.year == b.year && (ltb a.month b.month || (a.month == b.month && leb a.day b.day)))

earlier_year : (a b : Date) → IsDate a → a.year < b.year → day_number a < day_number b
earlier_year a b v h = omega (
  arith,
  day_number_eq a,
  day_number_eq b,
  day_of_year_in_year a v,
  days_before_year-suc a.year,
  days_before_year_mono (suc a.year) b.year h,
)

earlier_month :
    (a b : Date) → IsDate a → a.year ≡ b.year → a.month < b.month → day_number a < day_number b
earlier_month a b v y h =
    let later : days_before_month a.year (suc a.month) ≤ days_before_month b.year b.month =
      subst (λ z. days_before_month a.year (suc a.month) ≤ days_before_month z b.month) y
        (days_before_month_mono a.year (suc a.month) b.month (omega arith) h) in
    omega (
      arith,
      day_number_eq a,
      day_number_eq b,
      day_of_year_in_month a v,
      ap days_before_year y,
      later,
    )

same_month :
    (a b : Date)
    → a.year ≡ b.year
    → a.month ≡ b.month
    → day_number a + (b.day - 1) ≡ day_number b + (a.day - 1)
same_month a b y m =
    let before : days_before_month a.year a.month ≡ days_before_month b.year b.month = cc in
    omega (arith, day_number_eq a, day_number_eq b, ap days_before_year y, before)

-- Fields and day numbers agree on the order.
pub date_leb_lem :
    (a b : Date) → IsDate a → IsDate b → date_leb a b ≡ leb (day_number a) (day_number b)
date_leb_lem a b v w = ground (
  arith,
  earlier_year a b v,
  earlier_year b a w,
  earlier_month a b v,
  earlier_month b a w,
  same_month a b,
  v.day_in.0,
  w.day_in.0,
)

-- The years, as two pairs of digits.
year_pairs :
    (y z : ℕ) (rest : Bool)
    → (ltb (y / 100) (z / 100)
        || (y / 100 == z / 100 && (ltb (y % 100) (z % 100) || (y % 100 == z % 100 && rest))))
      ≡ (ltb y z || (y == z && rest))
year_pairs y z rest = ground arith

day_digits : (m n : ℕ) → m < 100 → n < 100 → text_leb (two_digits m []) (two_digits n []) ≡ leb m n
unfolding text_leb
day_digits m n h k = ground arith

date_text-date_leb :
    (a b : Date) → IsDate a → IsDate b → text_leb (date_text a) (date_text b) ≡ date_leb a b
unfolding date_text
date_text-date_leb a b v w =
    rw
      (
        two_digits_leb (a.year / 100) (b.year / 100) _ _ (omega (arith, v.year_in))
            (omega (arith, w.year_in)),
        two_digits_leb (a.year % 100) (b.year % 100) _ _ (omega arith) (omega arith),
        same_char_leb b'-',
        two_digits_leb a.month b.month _ _ (omega (arith, v.month_in.1))
            (omega (arith, w.month_in.1)),
        same_char_leb b'-',
        day_digits a.day b.day (day_small a v) (day_small b w),
      )
      (year_pairs a.year b.year _)

-- For dates of the calendar, `date_text a <= date_text b` as texts exactly if `a` is no later day.
pub date_text-order :
    (a b : Date)
    → IsDate a
    → IsDate b
    → text_leb (date_text a) (date_text b) ≡ leb (day_number a) (day_number b)
date_text-order a b v w = date_text-date_leb a b v w ∙ date_leb_lem a b v w
