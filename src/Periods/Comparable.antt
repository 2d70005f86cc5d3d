-- ===== src/Periods/Comparable.antt =====
-- The ranges that `normalizeInput` and `normalizeComparisonInput` return.
use native.Mathlib.Nat.{le_trans}
use cash_count.Base.{
  ℕ, ◌+◌, ◌-◌, ◌≤◌, ◌≡◌, refl, subst, Bool, Option, none, some, true, false, not, ◌||◌, arith, leb,
  ltb,
}
use cash_count.Base.Results.{ok, guard, >>=-eq-ok, guard-eq-ok, ok-injective}
use cash_count.Calendar.Shift.{day_of}
use cash_count.Periods.Ranges.{
  bank_date, is_after, SummaryInput, Summary, normalize_input, by_month, is_granularity,
  reversed_range, long_range, invalid_granularity, invalid_mode, current_reversed, current_long,
  comparison_invalid, day_count, require_uuid, with_default,
}
use cash_count.Periods.Comparison.{
  is_mode, ComparisonInput, Comparison, Range, range, comparison_range, same_elapsed,
  normalize_comparison_input,
}
use cash_count.Periods.Bounds.{IsOrdered, ordered_after, bank_date-IsBankText, same_elapsed-IsCut}
use cash_count.Periods.Results.{HasBankDates, comparison_range-HasBankDates}

-- A range of bank dates in order, of at most 367 days.
pub record IsBounded (r : Range) : Type 0 where
  pub ordered : IsOrdered r
  pub days : day_count r.from r.to ≤ 367

-- What the comparison of periods works on, for the request of the caller.
pub record IsComparable (input : ComparisonInput) (c : Comparison) : Type 0 where
  pub current_bounded : IsBounded c.current
  pub comparison_bounded : IsBounded c.comparison
  pub same_elapsed_days : c.same_elapsed_days ≡ with_default false input.same_elapsed_days
  pub equal_days :
      input.same_elapsed_days ≡ some true
      → day_count c.current.from c.current.to ≡ day_count c.comparison.from c.comparison.to

-- The two guards on the range of comparison.
comparison_guard :
    (r : Range)
    → HasBankDates r
    → not (is_after r.from r.to || ltb 367 (day_count r.from r.to)) ≡ true
    → IsBounded r
comparison_guard r h k =
    let in_range : not (is_after r.from r.to) ≡ true = ground arith in
    let short : ltb 367 (day_count r.from r.to) ≡ false = ground arith in
    record {
      ordered = record {
        from_date = h.0;
        to_date = h.1;
        in_order = ordered_after r.from r.to h.0 h.1 in_range;
      };
      days = ground arith;
    }

near : (m n : ℕ) → leb (m - n) 366 ≡ true → m ≤ n + 366
near m n h = ground arith

within : (m n k : ℕ) → m ≤ n → leb n k ≡ true → m ≤ k
within m n k h l = ground arith

asked_elapsed : (asked : Option Bool) → asked ≡ some true → with_default false asked ≡ true
asked_elapsed none h = cc
asked_elapsed (some b) h = cc

-- A comparison that is accepted works on two ranges of bank dates in order, of at most 367 days, which
-- have equally many days if the input asks for the same elapsed days.
pub normalize_comparison_input-IsComparable :
    (input : ComparisonInput) (c : Comparison)
    → normalize_comparison_input input ≡ ok c
    → IsComparable input c
unfolding normalize_comparison_input
normalize_comparison_input-IsComparable input c h =
    let (u1, p1, h1) = >>=-eq-ok (guard (is_mode input.mode) invalid_mode) _ h in
    let (from, p2, h2) = >>=-eq-ok (bank_date input.current_from) _ h1 in
    let (to, p3, h3) = >>=-eq-ok (bank_date input.current_to) _ h2 in
    let (u4, p4, h4) = >>=-eq-ok (guard (not (is_after from to)) current_reversed) _ h3 in
    let (u5, p5, h5) = >>=-eq-ok (guard (leb (day_count from to) 367) current_long) _ h4 in
    let (u6, p6, h6) = >>=-eq-ok (require_uuid input.account_id) _ h5 in
    let (u7, p7, h7) = >>=-eq-ok (require_uuid input.category_id) _ h6 in
    let (u8, p8, h8) = >>=-eq-ok (require_uuid input.merchant_id) _ h7 in
    let current = range from to in
    let (r, p9, h9) =
      >>=-eq-ok (comparison_range input.mode input.comparison_from input.comparison_to current) _
        h8 in
    let (u10, p10, h10) =
      >>=-eq-ok
        (guard (not (is_after r.from r.to || ltb 367 (day_count r.from r.to))) comparison_invalid) _
        h9 in
    let elapsed = with_default false input.same_elapsed_days in
    let (ranges, p11, h11) = >>=-eq-ok (same_elapsed elapsed current r) _ h10 in
    let from_date = (bank_date-IsBankText input.current_from from p2).1 in
    let to_date = (bank_date-IsBankText input.current_to to p3).1 in
    let ordered : IsOrdered current = record {
      from_date = from_date;
      to_date = to_date;
      in_order = ordered_after from to from_date to_date (guard-eq-ok _ _ p4);
    } in
    let short = guard-eq-ok (leb (day_count from to) 367) _ p5 in
    let bounded =
      comparison_guard r
        (comparison_range-HasBankDates input.mode input.comparison_from input.comparison_to current
          r ordered p9)
        (guard-eq-ok _ _ p10) in
    let cut = same_elapsed-IsCut elapsed current r ranges ordered bounded.ordered p11 in
    let made : Comparison = record {
      account_id = input.account_id;
      category_id = input.category_id;
      comparison = ranges.1;
      current = ranges.0;
      include_pending = with_default false input.include_pending;
      merchant_id = input.merchant_id;
      mode = input.mode;
      same_elapsed_days = elapsed;
    } in
    let same : made ≡ c = ok-injective h11 in
    subst (IsComparable input) same (record {
      same_elapsed_days = refl;
      current_bounded = record {
        ordered = cut.current_ordered;
        days = within _ _ _ cut.current_days short;
      };
      comparison_bounded = record {
        ordered = cut.comparison_ordered;
        days = le_trans cut.comparison_days bounded.days;
      };
      equal_days = λ asked. cut.equal_days (asked_elapsed input.same_elapsed_days asked);
    })

-- The range of a summary that is accepted is one of bank dates in order, whose ends are at most 366
-- days apart; the other values are those of the input, with the defaults.
pub normalize_input-IsOrdered :
    (input : SummaryInput) (c : Summary)
    → normalize_input input ≡ ok c
    → IsOrdered (range c.from c.to)
      × (day_of c.to ≤ day_of c.from + 366)
      × (c.granularity ≡ with_default by_month input.granularity)
      × (c.from ≡ input.from)
      × (c.to ≡ input.to)
unfolding normalize_input
normalize_input-IsOrdered input c h =
    let (from, p2, h2) = >>=-eq-ok (bank_date input.from) _ h in
    let (to, p3, h3) = >>=-eq-ok (bank_date input.to) _ h2 in
    let (u4, p4, h4) = >>=-eq-ok (guard (not (is_after from to)) reversed_range) _ h3 in
    let (u5, p5, h5) = >>=-eq-ok (guard (leb (day_of to - day_of from) 366) long_range) _ h4 in
    let (u6, p6, h6) = >>=-eq-ok (require_uuid input.account_id) _ h5 in
    let (u7, p7, h7) = >>=-eq-ok (require_uuid input.category_id) _ h6 in
    let (u8, p8, h8) = >>=-eq-ok (require_uuid input.merchant_id) _ h7 in
    let granularity = with_default by_month input.granularity in
    let (u9, p9, h9) = >>=-eq-ok (guard (is_granularity granularity) invalid_granularity) _ h8 in
    let (from_same, from_date) = bank_date-IsBankText input.from from p2 in
    let (to_same, to_date) = bank_date-IsBankText input.to to p3 in
    let ordered : IsOrdered (range from to) = record {
      from_date = from_date;
      to_date = to_date;
      in_order = ordered_after from to from_date to_date (guard-eq-ok _ _ p4);
    } in
    let made : Summary = record {
      account_id = input.account_id;
      category_id = input.category_id;
      from = from;
      granularity = granularity;
      include_pending = with_default false input.include_pending;
      merchant_id = input.merchant_id;
      to = to;
    } in
    let same : made ≡ c = ok-injective h9 in
    subst
      (λ x.
        IsOrdered (range x.from x.to)
        × (day_of x.to ≤ day_of x.from + 366)
        × (x.granularity ≡ granularity)
        × (x.from ≡ input.from)
        × (x.to ≡ input.to))
      same (ordered, near (day_of to) (day_of from) (guard-eq-ok _ _ p5), refl, from_same, to_same)
