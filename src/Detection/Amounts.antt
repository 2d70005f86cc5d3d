-- ===== src/Detection/Amounts.antt =====
-- The amounts that the detectors compare, in millionths.
use mathlib.Core.Path.{ap₂}
use cash_count.Base.{
  ℕ, ◌+◌, ◌-◌, ◌≤◌, ◌≡◌, refl, sym, ap, ◌∙◌, subst, Bool, true, false, not, Option, none, some,
  arith, leb, if◌then◌else◌, Bool-cases, inl, inr,
}
use cash_count.Base.Int.{ℤ, pos, negsuc, ◌-ℤ◌, ltb_ℤ}
use cash_count.Base.Results.{ok}
use cash_count.Base.Text.{Text, text_eq, text_eq_refl, text_eq→eq}
use cash_count.Base.Deciding.{Decides, Decides-iff, Decides-leb}
use cash_count.Calendar.Arithmetic.{IsBankText}
use cash_count.Decimal.Pattern.{is_decimal, is_currency_code}
use cash_count.Decimal.Units.{decimal_units}
use cash_count.Decimal.Units.Reads.{is_decimal-reads}
use cash_count.Decimal.Units.Bounds.{is_decimal-IsSmall}
use cash_count.Decimal.Laws.{money_from_valid}
use cash_count.Decimal.Money.{
  Decimals, DecimalLaws, Money, IsSmall, magnitude, money_abs, money_subtract, money_compare,
  money_is_negative,
}
use cash_count.Detection.Facts.{DetectionFacts, money, compare_difference, amount_within_tolerance}

abbrev pub size : Option ℤ → ℕ
size none = 0
size (some z) = magnitude z

-- The size of an amount in millionths.
abbrev pub units : Text → ℕ
units t = size (decimal_units t)

abbrev pub distance : ℕ → ℕ → ℕ
distance a b = (a - b) + (b - a)

-- Facts as the tables hold them.
abbrev pub IsFacts : DetectionFacts → Type 0
IsFacts c =
    IsBankText c.transaction_local_date
    × (is_decimal c.amount_signed ≡ true)
    × (is_currency_code c.currency ≡ true)

-- A decimal that is not negative.
abbrev pub IsTolerance : Text → Type 0
IsTolerance t = (is_decimal t ≡ true) × (n : ℕ) × (decimal_units t ≡ some (pos n))

abbrev pub IsWithin : Text → DetectionFacts → DetectionFacts → Type 0
IsWithin tolerance t c =
    (t.currency ≡ c.currency)
    × (distance (units t.amount_signed) (units c.amount_signed) ≤ units tolerance)

module _ (d : Decimals) (laws : DecimalLaws d) where
  pub money_reads :
      (a c : Text)
      → is_decimal a ≡ true
      → is_currency_code c ≡ true
      → (m : Money d) × (money d a c ≡ ok m)
        × (m.currency ≡ c)
        × (decimal_units a ≡ some (laws.micros m.amount))
        × IsSmall (laws.micros m.amount)
  money_reads a c h k =
      let (m, made, code, value) = money_from_valid d laws a c h k in
      let (z, read) = is_decimal-reads a h in
      let same : laws.micros m.amount ≡ z = value ∙ laws.of_text_micros a z h read in
      (m, rw made refl, code, rw same read, rw same (is_decimal-IsSmall a z h read))

  not_above :
      (x y : ℕ)
      → not (
          ltb_ℤ (pos 0) (
            if ltb_ℤ (pos x) (pos y)
            then negsuc 0
            else if ltb_ℤ (pos y) (pos x)
            then pos 1
            else pos 0))
        ≡ leb x y
  not_above x y = ground arith

  magnitude-difference : (a b : ℕ) → magnitude (pos a -ℤ pos b) ≡ distance a b
  unfolding ◌-ℤ◌
  magnitude-difference a b = ground arith

  -- The comparison of two sizes is exact.
  pub money_compare_sizes :
      (x y : Money d)
      → text_eq x.currency y.currency ≡ true
      → (s : ℤ) × (money_compare d (money_abs d x) (money_abs d y) ≡ ok s)
        × (not (ltb_ℤ (pos 0) s)
            ≡ leb (magnitude (laws.micros x.amount)) (magnitude (laws.micros y.amount)))
  unfolding money_abs money_compare
  money_compare_sizes x y same = (
    d.compared_to (d.abs x.amount) (d.abs y.amount),
    rw same refl,
    rw
        (
          laws.compared_to_micros (d.abs x.amount) (d.abs y.amount),
          laws.abs_micros x.amount,
          laws.abs_micros y.amount,
        )
        (not_above (magnitude (laws.micros x.amount)) (magnitude (laws.micros y.amount))),
  )

  -- The comparison of two sizes against a tolerance is exact.
  compare_difference_lem :
      (x y w : Money d) (n : ℕ)
      → text_eq x.currency y.currency ≡ true
      → text_eq x.currency w.currency ≡ true
      → IsSmall (laws.micros x.amount)
      → IsSmall (laws.micros y.amount)
      → laws.micros w.amount ≡ pos n
      → (s : ℤ) × (compare_difference d (money_abs d x) (money_abs d y) w ≡ ok s)
        × (not (ltb_ℤ (pos 0) s)
            ≡ leb
                (distance (magnitude (laws.micros x.amount)) (magnitude (laws.micros y.amount)))
                n)
  unfolding compare_difference money_abs money_subtract money_compare
  compare_difference_lem x y w n same also small_x small_y tolerance =
      let gap = d.minus (d.abs x.amount) (d.abs y.amount) in
      let exact : laws.micros gap
          ≡ pos (magnitude (laws.micros x.amount)) -ℤ pos (magnitude (laws.micros y.amount)) =
        laws.minus_micros (d.abs x.amount) (d.abs y.amount) (small_abs x small_x)
          (small_abs y small_y)
        ∙ ap₂ ◌-ℤ◌ (laws.abs_micros x.amount) (laws.abs_micros y.amount) in
      let size_of_gap : laws.micros (d.abs gap)
          ≡ pos (distance (magnitude (laws.micros x.amount)) (magnitude (laws.micros y.amount))) =
        laws.abs_micros gap
        ∙ ap (λ z. pos (magnitude z)) exact
        ∙ ap pos (
            magnitude-difference (magnitude (laws.micros x.amount))
              (magnitude (laws.micros y.amount))) in
      (
        d.compared_to (d.abs gap) w.amount,
        rw (same, also) refl,
        rw (laws.compared_to_micros (d.abs gap) w.amount, size_of_gap, tolerance)
            (not_above
              (distance (magnitude (laws.micros x.amount)) (magnitude (laws.micros y.amount))) n),
      )
    where
      small_abs :
          (m : Money d) → IsSmall (laws.micros m.amount) → IsSmall (laws.micros (d.abs m.amount))
      small_abs m h = rw (laws.abs_micros m.amount) (omega (arith, h))

  -- With facts and a tolerance in their form the test returns and says what it means.
  size-pos : (n : ℕ) → size (some (pos n)) ≡ n
  size-pos n = omega arith

  none_below : (n : ℕ) → ltb_ℤ (pos n) (pos 0) ≡ false
  none_below n = ground arith

  pub amount_within_tolerance-Decides :
      (tolerance : Text) (t c : DetectionFacts)
      → IsTolerance tolerance
      → IsFacts t
      → IsFacts c
      → (b : Bool) × (amount_within_tolerance d t c tolerance ≡ ok b)
        × Decides (IsWithin tolerance t c) b
  unfolding amount_within_tolerance money_is_negative
  amount_within_tolerance-Decides tolerance t c (form, n, reads) (_, left, code) (_, right, other) =
      elim (Bool-cases (text_eq t.currency c.currency)) [
        | inl e ↦
            let (x, mx, cx, ux, sx) = money_reads t.amount_signed t.currency left code in
            let (y, my, cy, uy, sy) = money_reads c.amount_signed c.currency right other in
            let (w, mw, cw, uw, sw) = money_reads tolerance t.currency form code in
            let value : laws.micros w.amount ≡ pos n = cc in
            let positive : money_is_negative d w ≡ false =
              laws.is_negative_micros w.amount ∙ ap (λ z. ltb_ℤ z (pos 0)) value ∙ none_below n in
            let (s, compared, sign) =
              compare_difference_lem x y w n (cc (e, cx, cy))
                (rw (cx, cw) (text_eq_refl t.currency)) sx sy value in
            let gap : distance (units t.amount_signed) (units c.amount_signed)
                ≡ distance (magnitude (laws.micros x.amount)) (magnitude (laws.micros y.amount)) =
              ap₂ distance (ap size ux) (ap size uy) in
            let limit : units tolerance ≡ n = ap size reads ∙ size-pos n in
            (
              not (ltb_ℤ (pos 0) s),
              rw (e, mx, my, mw, positive, compared) refl,
              subst (Decides _) (sym sign) (
                  Decides-iff (λ h. (text_eq→eq t.currency c.currency e, rw (gap, limit) h))
                    (λ h. rw (gap, limit) at h.1)
                    (Decides-leb
                      (distance (magnitude (laws.micros x.amount))
                        (magnitude (laws.micros y.amount)))
                      n)),
            )
        | inr e ↦
            (false, rw e refl, Decides.fails (λ within. cc (e, within.0, text_eq_refl t.currency)))
      ]
