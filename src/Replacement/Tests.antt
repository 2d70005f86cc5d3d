-- ===== src/Replacement/Tests.antt =====
-- A pending purchase and the one that replaces it.
use cash_count.Base.{◌≡◌, refl, none, some}
use cash_count.Base.Deciding.{Decides}
use cash_count.Base.Results.{ok}
use cash_count.Base.Text.{text}
use cash_count.Decimal.Exact.{exact_decimals}
use cash_count.Decimal.Pattern.{is_decimal, is_currency_code}
use cash_count.Replacement.Score.{ReplacementFacts, ReplacementScore, score_transaction_replacement}
use cash_count.Replacement.Eligible.{Compatible, score_transaction_replacement-Compatible}

abbrev pending : ReplacementFacts
pending = record {
  account_id = text "a";
  amount_signed = text "-12.5";
  bill_forecast_month = none;
  card_last_four = some (text "1234");
  currency = text "BRL";
  description_normalized = text "livraria cultura";
  installment_number = none;
  installment_total = none;
  local_date = text "2024-02-29";
  payee_mcc = none;
  provider_bill_id = none;
  provider_type = none;
}

abbrev posted : ReplacementFacts
posted = record pending {
  description_normalized = text "livraria";
  local_date = text "2024-03-02";
  card_last_four = none;
}

scored_pair :
    (r : ReplacementScore) × (score_transaction_replacement exact_decimals
        (λ days similarity same. text "0.9000")
        pending
        posted
      ≡ ok r)
unfolding score_transaction_replacement is_decimal is_currency_code
scored_pair = (_, refl)

score_transaction_replacement-Compatible_example :
    Decides
      (Compatible exact_decimals (λ days similarity same. text "0.9000") pending posted)
      scored_pair.0.eligible
score_transaction_replacement-Compatible_example =
    score_transaction_replacement-Compatible exact_decimals (λ days similarity same. text "0.9000")
      pending posted scored_pair.0 scored_pair.1
