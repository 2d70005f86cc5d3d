-- ===== src/Policy/Tests.antt =====
-- The theorems of the policy at one purchase.
use cash_count.Base.{◌≡◌, refl, none, some}
use cash_count.Base.Text.{text, text_eq}
use cash_count.Base.Results.{ok}
use cash_count.Decimal.Pattern.{is_decimal, is_currency_code}
use cash_count.Decimal.Money.{money_from}
use cash_count.Decimal.Exact.{exact_decimals, exact_laws}
use cash_count.Policy.Types.{
  checking, outflow, purchase, debit_entry, ClassificationEvidence, Classification, EffectInput,
}
use cash_count.Policy.Classify.{classify_transaction}
use cash_count.Policy.Effects.{
  TransactionEffects, calculate_transaction_effects, select_analytics_amount,
}
use cash_count.Policy.Precedence.{FollowsEvidence, classify-FollowsEvidence}
use cash_count.Policy.Signs.{HasEffects, effects-HasEffects}

abbrev purchase_evidence : ClassificationEvidence
purchase_evidence = record {
  account_type = checking;
  finance_charge_transaction = none;
  income_evidence = none;
  internal_transfer_evidence = none;
  payment_evidence = none;
  provider_amount_signed = text "-12.5";
  provider_type = some debit_entry;
  refund_evidence = none;
  tax_evidence = none;
  withdrawal_evidence = none;
}

abbrev purchase_outflow : Classification
purchase_outflow = record { direction = outflow; role = purchase }

classify_purchase : classify_transaction exact_decimals purchase_evidence ≡ ok purchase_outflow
unfolding classify_transaction money_from is_decimal is_currency_code
classify_purchase = refl

classify-FollowsEvidence_example : FollowsEvidence purchase_evidence purchase_outflow
classify-FollowsEvidence_example =
    classify-FollowsEvidence exact_decimals purchase_evidence purchase_outflow classify_purchase

abbrev purchase_effect : EffectInput
purchase_effect = record {
  account_type = checking;
  amounts = record {
    account_currency = text "BRL";
    account_currency_amount_signed = none;
    provider_amount_signed = text "-12.5";
    provider_currency = text "BRL";
  };
  direction = outflow;
  excluded_from_spend = none;
  finance_charge_matched_transaction = none;
  internal_transfer = none;
  representation = none;
  role = purchase;
}

purchase_effects :
    (e : TransactionEffects exact_decimals) × (calculate_transaction_effects exact_decimals
        purchase_effect
      ≡ ok e)
unfolding calculate_transaction_effects money_from is_decimal is_currency_code text_eq
    select_analytics_amount
purchase_effects = (_, refl)

effects-HasEffects_example :
    HasEffects exact_decimals exact_laws purchase_effect purchase_effects.0 none
effects-HasEffects_example =
    effects-HasEffects exact_decimals exact_laws purchase_effect purchase_effects.0
      purchase_effects.1
