-- ===== src/Policy/Effects.antt =====
-- `selectAnalyticsAmount` and `calculateTransactionEffects`.
use cash_count.Base.{
  Bool, true, false, not, ◌&&◌, ◌||◌, Option, none, some, List, [], ◌∷◌, ◌++◌, if◌then◌else◌,
}
use cash_count.Base.Text.{Text, text_eq}
use cash_count.Base.Results.{Result, ok, ◌>>=◌}
use cash_count.Decimal.Money.{
  Decimals, Money, MoneyError, money_from, money_zero, money_abs, money_negate,
}
use cash_count.Policy.Types.{
  AccountType, Direction, FinancialRole, purchase, transfer, refund, fee, tax, credit,
  unknown_credit, Representation, bill_finance_charge_evidence, bill_payment_evidence,
  financial_transaction, PolicyWarning, bill_evidence_not_counted, unconverted_currency,
  unresolved_card_credit, unresolved_finance_charge, is_deposit, is_card, is_inflow, is_outflow,
  flag, SignedAmountEvidence, EffectInput,
}

abbrev pub is_spending_role : FinancialRole → Bool
is_spending_role purchase = true
is_spending_role fee = true
is_spending_role tax = true
is_spending_role _ = false

abbrev pub is_refunding_role : FinancialRole → Bool
is_refunding_role refund = true
is_refunding_role credit = true
is_refunding_role _ = false

abbrev pub is_transfer_role : FinancialRole → Bool
is_transfer_role transfer = true
is_transfer_role _ = false

abbrev pub is_unknown_credit : FinancialRole → Bool
is_unknown_credit unknown_credit = true
is_unknown_credit _ = false

module _ (d : Decimals) where
  pub record TransactionEffects : Type 0 where
    pub analytics_amount : Option (Money d)
    pub analytics_currency : Text
    pub cashflow_effect : Option (Money d)
    pub spending_effect : Option (Money d)
    pub warnings : List PolicyWarning

  abbrev present : Result MoneyError (Money d) → Result MoneyError (Option (Money d))
  present m = m >>= λ x. ok (some x)

  provider_amount : SignedAmountEvidence → Result MoneyError (Option (Money d))
  provider_amount a =
      if text_eq a.provider_currency a.account_currency
      then present (money_from d a.provider_amount_signed a.account_currency)
      else ok none

  account_amount : SignedAmountEvidence → Option Text → Result MoneyError (Option (Money d))
  unfolding provider_amount
  account_amount a none = provider_amount a
  account_amount a (some signed) = present (money_from d signed a.account_currency)

  unfoldable pub select_analytics_amount :
      SignedAmountEvidence → Result MoneyError (Option (Money d))
  unfolding account_amount
  select_analytics_amount a = account_amount a a.account_currency_amount_signed

  -- `amount?.abs() ?? null` and `amount?.abs().negate() ?? null`
  abbrev pub positive : Option (Money d) → Option (Money d)
  positive none = none
  positive (some m) = some (money_abs d m)

  abbrev pub negative : Option (Money d) → Option (Money d)
  negative none = none
  negative (some m) = some (money_negate d (money_abs d m))

  unfoldable pub spending_effect :
      Option (Money d) → Text → FinancialRole → Bool → Result MoneyError (Option (Money d))
  spending_effect amount currency role excluded =
      let nil = present (money_zero d currency) in
      if excluded
      then nil
      else if is_spending_role role
      then ok (positive amount)
      else if is_refunding_role role
      then ok (negative amount)
      else nil

  unfoldable pub cashflow_effect :
      Option (Money d)
      → AccountType
      → Text
      → Direction
      → Bool
      → FinancialRole
      → Result MoneyError (Option (Money d))
  cashflow_effect amount account currency direction internal role =
      let nil = present (money_zero d currency) in
      if not (is_deposit account) || internal || is_transfer_role role
      then nil
      else if is_inflow direction
      then ok (positive amount)
      else if is_outflow direction
      then ok (negative amount)
      else nil

  abbrev warn : Bool → PolicyWarning → List PolicyWarning
  warn true w = w ∷ []
  warn false w = []

  abbrev is_missing : Option (Money d) → Bool
  is_missing none = true
  is_missing (some m) = false

  -- The two warnings that precede the representation's own.
  unfoldable pub amount_warnings : EffectInput → Option (Money d) → List PolicyWarning
  amount_warnings input amount =
      warn (is_missing amount) unconverted_currency
      ++ warn (is_unknown_credit input.role && is_card input.account_type) unresolved_card_credit

  -- Bill evidence has no effect of its own.
  unfoldable pub evidence_effects :
      EffectInput → Option (Money d) → List PolicyWarning → Result MoneyError TransactionEffects
  evidence_effects input amount warnings = do
    cashflow ← money_zero d input.amounts.account_currency
    spending ← money_zero d input.amounts.account_currency
    ok (record {
      analytics_amount = amount;
      analytics_currency = input.amounts.account_currency;
      cashflow_effect = some cashflow;
      spending_effect = some spending;
      warnings = warnings;
    })

  unfoldable pub transaction_effects :
      EffectInput → Option (Money d) → List PolicyWarning → Result MoneyError TransactionEffects
  unfolding cashflow_effect spending_effect
  transaction_effects input amount warnings = do
    cashflow ←
        cashflow_effect amount input.account_type input.amounts.account_currency input.direction
          (flag input.internal_transfer) input.role
    spending ←
        spending_effect amount input.amounts.account_currency input.role
          (flag input.excluded_from_spend)
    ok (record {
      analytics_amount = amount;
      analytics_currency = input.amounts.account_currency;
      cashflow_effect = cashflow;
      spending_effect = spending;
      warnings = warnings;
    })

  unfoldable pub effects_by :
      Option Representation → EffectInput → Option (Money d) → Result MoneyError TransactionEffects
  unfolding amount_warnings evidence_effects transaction_effects
  effects_by (some bill_finance_charge_evidence) input amount = evidence_effects input amount (
      amount_warnings input amount
      ++ (warn (not (flag input.finance_charge_matched_transaction)) unresolved_finance_charge
          ++ bill_evidence_not_counted ∷ []))
  effects_by (some bill_payment_evidence) input amount =
      evidence_effects input amount (amount_warnings input amount ++ bill_evidence_not_counted ∷ [])
  effects_by (some financial_transaction) input amount =
      transaction_effects input amount (amount_warnings input amount)
  effects_by none input amount = transaction_effects input amount (amount_warnings input amount)

  unfoldable pub calculate_transaction_effects : EffectInput → Result MoneyError TransactionEffects
  unfolding effects_by
  calculate_transaction_effects input = do
    amount ← select_analytics_amount input.amounts
    effects_by input.representation input amount
