-- ===== src/Decimal/Money.antt =====
-- `Money` of packages/domain/src/money.ts over the operations of decimal.js that it calls.
use cash_count.Base.{ℕ, ◌+◌, ◌<◌, ◌≡◌, Bool, true, not, ◌&&◌, some, ◌==◌, if◌then◌else◌}
use cash_count.Base.Int.{ℤ, pos, negsuc, pos_part, neg_part, ◌-ℤ◌, ltb_ℤ}
use cash_count.Base.Text.{Text, text, text_eq}
use cash_count.Base.Results.{Result, ok, err, guard, ◌>>=◌, ◌>>◌}
use cash_count.Decimal.Pattern.{is_decimal, is_currency_code}
use cash_count.Decimal.Units.{decimal_units}

-- The operations of the library, cloned with 40 digits and half-even rounding.
pub record Decimals : Type 1 where
  pub Decimal : Type 0
  pub of_text : Text → Decimal
  pub to_fixed : Decimal → Text
  pub is_finite : Decimal → Bool
  pub is_zero : Decimal → Bool
  pub is_negative : Decimal → Bool
  pub abs : Decimal → Decimal
  pub negated : Decimal → Decimal
  pub minus : Decimal → Decimal → Decimal
  pub compared_to : Decimal → Decimal → ℤ

abbrev pub magnitude : ℤ → ℕ
magnitude z = pos_part z + neg_part z

-- Below twenty digits in millionths, so that a difference is exact at forty digits.
abbrev pub IsSmall : ℤ → Type 0
IsSmall z = magnitude z < 100000000000000000000

-- What the code relies on: a decimal stands for a count of millionths, strings of the accepted
-- pattern are read and printed exactly, and signs, absolute values, differences and comparisons are
-- exact on such amounts.
pub record DecimalLaws (d : Decimals) : Type 0 where
  pub micros : d.Decimal → ℤ
  pub of_text_micros :
      (t : Text) (z : ℤ) → is_decimal t ≡ true → decimal_units t ≡ some z → micros (d.of_text t) ≡ z
  pub of_text_finite : (t : Text) → is_decimal t ≡ true → d.is_finite (d.of_text t) ≡ true
  pub to_fixed_micros :
      (t : Text)
      → is_decimal t ≡ true
      → micros (d.of_text (d.to_fixed (d.of_text t))) ≡ micros (d.of_text t)
  pub is_zero_micros : (x : d.Decimal) → d.is_zero x ≡ (magnitude (micros x) == 0)
  -- A negative zero counts as negative.
  pub is_negative_micros :
      (x : d.Decimal) → (d.is_negative x && not (d.is_zero x)) ≡ ltb_ℤ (micros x) (pos 0)
  pub abs_micros : (x : d.Decimal) → micros (d.abs x) ≡ pos (magnitude (micros x))
  pub negated_micros : (x : d.Decimal) → micros (d.negated x) ≡ pos 0 -ℤ micros x
  pub minus_micros :
      (x y : d.Decimal)
      → IsSmall (micros x)
      → IsSmall (micros y)
      → micros (d.minus x y) ≡ micros x -ℤ micros y
  pub compared_to_micros :
      (x y : d.Decimal)
      → d.compared_to x y ≡ (
          if ltb_ℤ (micros x) (micros y)
          then negsuc 0
          else if ltb_ℤ (micros y) (micros x)
          then pos 1
          else pos 0)

pub data MoneyError : Type 0 where
  invalid_currency_code invalid_decimal_string currency_mismatch : MoneyError

unfoldable pub parse_currency_code : Text → Result MoneyError Text
parse_currency_code s = if is_currency_code s then ok s else err invalid_currency_code

module _ (d : Decimals) where
  open d use {
    Decimal, of_text, to_fixed, is_finite, is_zero, is_negative, abs, negated, minus, compared_to,
  }

  unfoldable pub parse_decimal_string : Text → Result MoneyError Text
  parse_decimal_string s =
      if is_decimal s
      then (if is_finite (of_text s) then ok (to_fixed (of_text s)) else err invalid_decimal_string)
      else err invalid_decimal_string

  pub record Money : Type 0 where
    pub amount : Decimal
    pub currency : Text

  -- `Money.from`
  unfoldable pub money_from : Text → Text → Result MoneyError Money
  unfolding parse_decimal_string parse_currency_code
  money_from amount currency = do
    parsed ← parse_decimal_string amount
    code ← parse_currency_code currency
    ok (record { amount = of_text parsed; currency = code })

  unfoldable pub money_zero : Text → Result MoneyError Money
  unfolding money_from
  money_zero currency = money_from (text "0") currency

  unfoldable pub money_abs : Money → Money
  money_abs m = record m { amount = abs m.amount }

  unfoldable pub money_negate : Money → Money
  money_negate m = record m { amount = negated m.amount }

  unfoldable pub money_is_zero : Money → Bool
  money_is_zero m = is_zero m.amount

  unfoldable pub money_is_negative : Money → Bool
  money_is_negative m = is_negative m.amount && not (is_zero m.amount)

  assert_same_currency : Money → Money → Result MoneyError (Unit {0})
  assert_same_currency m n = guard (text_eq m.currency n.currency) currency_mismatch

  unfoldable pub money_subtract : Money → Money → Result MoneyError Money
  unfolding assert_same_currency
  money_subtract m n = do
    assert_same_currency m n
    ok (record { amount = minus m.amount n.amount; currency = m.currency })

  unfoldable pub money_compare : Money → Money → Result MoneyError ℤ
  unfolding assert_same_currency
  money_compare m n = do assert_same_currency m n; ok (compared_to m.amount n.amount)
