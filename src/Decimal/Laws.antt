-- ===== src/Decimal/Laws.antt =====
-- What the construction of a `Money` guarantees, by the laws of the decimals.
use cash_count.Base.{◌≡◌, refl, ◌∙◌, subst, true, some, arith}
use cash_count.Base.Int.{pos}
use cash_count.Base.Text.{Text, text}
use cash_count.Base.Results.{ok}
use cash_count.Decimal.Pattern.{is_decimal, is_currency_code}
use cash_count.Decimal.Units.{decimal_units}
use cash_count.Decimal.Money.{Decimals, DecimalLaws, Money, money_from, money_zero}

module _ (d : Decimals) (laws : DecimalLaws d) where
  -- A valid amount in a valid currency makes a `Money` of the same value.
  pub money_from_valid :
      (amount currency : Text)
      → is_decimal amount ≡ true
      → is_currency_code currency ≡ true
      → (m : Money d) × (money_from d amount currency ≡ ok m)
        × (m.currency ≡ currency)
        × (laws.micros m.amount ≡ laws.micros (d.of_text amount))
  unfolding money_from
  money_from_valid amount currency h k = (
    record { amount = d.of_text (d.to_fixed (d.of_text amount)); currency = currency },
    rw (h, laws.of_text_finite amount h, k),
    refl,
    laws.to_fixed_micros amount h,
  )

  -- And nothing else makes one.
  pub money_from_ok :
      (amount currency : Text) (m : Money d)
      → money_from d amount currency ≡ ok m
      → (is_decimal amount ≡ true)
        × (is_currency_code currency ≡ true)
        × (m.currency ≡ currency)
        × (laws.micros m.amount ≡ laws.micros (d.of_text amount))
  unfolding money_from
  money_from_ok amount currency m h =
      let (valid, code) = checked in
      let (n, e, c, v) = money_from_valid amount currency valid code in
      let same : n ≡ m = cc in
      (
        valid,
        code,
        subst (λ (x : Money d). x.currency ≡ currency) same c,
        subst (λ (x : Money d). laws.micros x.amount ≡ laws.micros (d.of_text amount)) same v,
      )
    where
      checked : (is_decimal amount ≡ true) × (is_currency_code currency ≡ true)
      checked = ground arith

  zero_text_units : decimal_units (text "0") ≡ some (pos 0)
  unfolding decimal_units
  zero_text_units = refl

  zero_text_valid : is_decimal (text "0") ≡ true
  unfolding is_decimal
  zero_text_valid = refl

  pub money_zero_ok :
      (currency : Text) (m : Money d)
      → money_zero d currency ≡ ok m
      → (is_currency_code currency ≡ true)
        × (m.currency ≡ currency)
        × (laws.micros m.amount ≡ pos 0)
  unfolding money_zero
  money_zero_ok currency m h =
      let (_, code, c, v) = money_from_ok (text "0") currency m h in
      (code, c, v ∙ laws.of_text_micros (text "0") (pos 0) zero_text_valid zero_text_units)

  pub money_zero_valid :
      (currency : Text)
      → is_currency_code currency ≡ true
      → (m : Money d) × (money_zero d currency ≡ ok m)
  unfolding money_zero
  money_zero_valid currency code =
      let (m, e, _, _) = money_from_valid (text "0") currency zero_text_valid code in (m, e)
