-- ===== src/Periods/Bounds.antt =====
-- What the two normalizations promise: ranges of bank dates in order, of bounded length, and equally
-- long ones where that was asked for.
use cash_count.Base.{
  ℕ, ◌+◌, ◌-◌, min, ◌≤◌, ◌≡◌, refl, sym, ap, ◌∙◌, subst, Bool, true, false, not, arith, leb,
}
use cash_count.Base.Int.{pos, sub_ℕ}
use cash_count.Base.Results.{ok, >>=-eq-ok, map_err-eq-ok}
use cash_count.Base.Text.{Text}
use cash_count.Calendar.Text.{parse_bank_date, date_of}
use cash_count.Calendar.RoundTrip.{parse_bank_date-IsBankDate}
use cash_count.Calendar.Order.{date_text-order}
use cash_count.Calendar.Shift.{day_of, bank_date_at}
use cash_count.Calendar.Arithmetic.{IsBankText, bank_date_at_returned}
use cash_count.Periods.Ranges.{bad_date, bank_date, is_after, day_count, days_after, days_before}
use cash_count.Periods.Comparison.{Range, range, same_elapsed}

-- Texts of bank dates compare as their days.
pub is_after_lem :
    (s t : Text) → IsBankText s → IsBankText t → is_after s t ≡ not (leb (day_of s) (day_of t))
unfolding day_of
is_after_lem s t h k =
    let (p, v, q) = parse_bank_date-IsBankDate s s h in
    let (r, w, u) = parse_bank_date-IsBankDate t t k in
    let order = date_text-order (date_of s) (date_of t) v.is_date w.is_date in ap not (cc)

pub bank_date-IsBankText : (t u : Text) → bank_date t ≡ ok u → (u ≡ t) × IsBankText u
bank_date-IsBankText t u h =
    let parsed = map_err-eq-ok bad_date (parse_bank_date t) h in
    let same = (parse_bank_date-IsBankDate t u parsed).0 in
    (same, subst (λ x. parse_bank_date x ≡ ok u) (sym same) parsed)

-- A range of bank dates that does not end before it starts.
pub record IsOrdered (r : Range) : Type 0 where
  pub from_date : IsBankText r.from
  pub to_date : IsBankText r.to
  pub in_order : day_of r.from ≤ day_of r.to

pub ordered_after :
    (from to : Text)
    → IsBankText from
    → IsBankText to
    → not (is_after from to) ≡ true
    → day_of from ≤ day_of to
ordered_after from to h k l = ground (arith, is_after_lem from to h k)

days_after_returned :
    (t u : Text) (n : ℕ) → days_after t n ≡ ok u → IsBankText u × (day_of u ≡ day_of t + n)
unfolding days_after
days_after_returned t u n h =
    let (bank, same) =
      bank_date_at_returned (pos (day_of t + n)) u
        (map_err-eq-ok bad_date (bank_date_at (pos (day_of t + n))) h) in
    (bank, ground arith)

sub_ℕ_pos : (a b n : ℕ) → sub_ℕ a b ≡ pos n → n + b ≡ a
sub_ℕ_pos a b n h = ground arith

pub days_before_returned :
    (t u : Text) (n : ℕ) → days_before t n ≡ ok u → IsBankText u × (day_of u + n ≡ day_of t)
unfolding days_before
days_before_returned t u n h =
    let (bank, same) =
      bank_date_at_returned (sub_ℕ (day_of t) n) u
        (map_err-eq-ok bad_date (bank_date_at (sub_ℕ (day_of t) n)) h) in
    (bank, sub_ℕ_pos (day_of t) n (day_of u) same)

pub day_count_eq : (from to : Text) → day_count from to ≡ day_of to + 1 - day_of from
unfolding day_count
day_count_eq from to = refl

-- Two ranges cut from two others: in order, no longer, and equally long if `elapsed` says so.
pub record IsCut (elapsed : Bool) (current comparison : Range) (ranges : Range × Range)
    : Type 0 where
  pub current_ordered : IsOrdered ranges.0
  pub comparison_ordered : IsOrdered ranges.1
  pub current_days : day_count ranges.0.from ranges.0.to ≤ day_count current.from current.to
  pub comparison_days :
      day_count ranges.1.from ranges.1.to ≤ day_count comparison.from comparison.to
  pub equal_days :
      elapsed ≡ true → day_count ranges.0.from ranges.0.to ≡ day_count ranges.1.from ranges.1.to

-- A range from a date to the day `days - 1` later.
cut_range :
    (r : Range) (to : Text) (days : ℕ)
    → IsOrdered r
    → 1 ≤ days
    → IsBankText to × (day_of to ≡ day_of r.from + (days - 1))
    → IsOrdered (range r.from to) × (day_count r.from to ≡ days)
cut_range r to days v one h = (
  record { from_date = v.from_date; to_date = h.0; in_order = omega (arith, h.1) },
  omega (arith, h.1, day_count_eq r.from to),
)

some_days : (r : Range) → IsOrdered r → 1 ≤ day_count r.from r.to
some_days r v = omega (arith, v.in_order, day_count_eq r.from r.to)

pub same_elapsed-IsCut :
    (elapsed : Bool) (current comparison : Range) (ranges : Range × Range)
    → IsOrdered current
    → IsOrdered comparison
    → same_elapsed elapsed current comparison ≡ ok ranges
    → IsCut elapsed current comparison ranges
unfolding same_elapsed
same_elapsed-IsCut false current comparison ranges v w h =
    let same : (current, comparison) ≡ ranges = cc h in
    subst (IsCut false current comparison) same (record {
      current_ordered = v;
      comparison_ordered = w;
      current_days = omega arith;
      comparison_days = omega arith;
      equal_days = λ e. absurd (cc);
    })
same_elapsed-IsCut true current comparison ranges v w h =
    let days = min (day_count current.from current.to) (day_count comparison.from comparison.to) in
    let (a, p, h1) = >>=-eq-ok (days_after current.from (days - 1)) _ h in
    let (b, q, h2) = >>=-eq-ok (days_after comparison.from (days - 1)) _ h1 in
    let same : (range current.from a, range comparison.from b) ≡ ranges = cc h2 in
    let one : 1 ≤ days = omega (arith, some_days current v, some_days comparison w) in
    let (va, da) =
      cut_range current a days v one (days_after_returned current.from a (days - 1) p) in
    let (wb, db) =
      cut_range comparison b days w one (days_after_returned comparison.from b (days - 1) q) in
    subst (IsCut true current comparison) same (record {
      current_ordered = va;
      comparison_ordered = wb;
      current_days = omega arith;
      comparison_days = omega arith;
      equal_days = λ e. da ∙ sym db;
    })
