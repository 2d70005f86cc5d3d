-- ===== src/Decimal/Exact.antt =====
-- A decimal arithmetic that has the laws: strings as they were read, and exact counts of millionths.
use cash_count.Base.{◌≡◌, refl, true, not, ◌&&◌, Option, none, some, [], arith, ◌==◌, if◌then◌else◌}
use cash_count.Base.Int.{ℤ, pos, negsuc, ◌-ℤ◌, ltb_ℤ}
use cash_count.Base.Text.{Text}
use cash_count.Decimal.Units.{decimal_units}
use cash_count.Decimal.Money.{Decimals, DecimalLaws, magnitude}

-- A string that was read, or an exact count of millionths.
pub data Amount : Type 0 where
  written : Text → Amount
  exact : ℤ → Amount

abbrev pub or_zero : Option ℤ → ℤ
or_zero none = pos 0
or_zero (some z) = z

unfoldable pub amount_micros : Amount → ℤ
amount_micros (written t) = or_zero (decimal_units t)
amount_micros (exact z) = z

abbrev pub amount_text : Amount → Text
amount_text (written t) = t
amount_text (exact z) = []

abbrev pub exact_decimals : Decimals
exact_decimals = record {
  Decimal = Amount;
  of_text = written;
  to_fixed = amount_text;
  is_finite = λ x. true;
  is_zero = λ x. magnitude (amount_micros x) == 0;
  is_negative = λ x. ltb_ℤ (amount_micros x) (pos 0);
  abs = λ x. exact (pos (magnitude (amount_micros x)));
  negated = λ x. exact (pos 0 -ℤ amount_micros x);
  minus = λ x y. exact (amount_micros x -ℤ amount_micros y);
  compared_to = λ x y.
      if ltb_ℤ (amount_micros x) (amount_micros y)
      then negsuc 0
      else if ltb_ℤ (amount_micros y) (amount_micros x)
      then pos 1
      else pos 0;
}

negative_not_zero : (z : ℤ) → (ltb_ℤ z (pos 0) && not (magnitude z == 0)) ≡ ltb_ℤ z (pos 0)
negative_not_zero z = ground arith

written_micros : (t : Text) (z : ℤ) → decimal_units t ≡ some z → amount_micros (written t) ≡ z
unfolding amount_micros
written_micros t z h = rw h

pub exact_laws : DecimalLaws exact_decimals
unfolding amount_micros
exact_laws = record {
  micros = amount_micros;
  of_text_micros = λ t z h k. written_micros t z k;
  of_text_finite = λ t h. refl;
  to_fixed_micros = λ t h. refl;
  is_zero_micros = λ x. refl;
  is_negative_micros = λ x. negative_not_zero (amount_micros x);
  abs_micros = λ x. refl;
  negated_micros = λ x. refl;
  minus_micros = λ x y h k. refl;
  compared_to_micros = λ x y. refl;
}
