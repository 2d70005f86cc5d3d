-- ===== src/Detection/Tests.antt =====
-- The detectors at one transfer, one refund and one bill.
use cash_count.Base.{◌≡◌, refl, none, some, [], ◌∷◌, ◌↔◌}
use cash_count.Base.Int.{◌-ℤ◌}
use cash_count.Base.Throwing.{filter_ok, map_ok}
use cash_count.Base.Results.{ok}
use cash_count.Base.Text.{text}
use cash_count.Calendar.Text.{parse_bank_date}
use cash_count.Decimal.Exact.{amount_micros, exact_decimals, exact_laws}
use cash_count.Decimal.Pattern.{is_decimal, is_currency_code}
use cash_count.Decimal.Units.{decimal_units}
use cash_count.Policy.Types.{checking, savings, inflow, outflow}
use cash_count.Detection.Facts.{DetectionFacts, PairDetection, auto_confirmed}
use cash_count.Detection.Detect.{
  BillPaymentEvidence, confirmed, detect_bill_payment_role, detect_internal_transfer, detect_refund,
}
use cash_count.Detection.Amounts.{IsFacts, IsTolerance}
use cash_count.Detection.Decision.{IsDetection}
use cash_count.Detection.Transfers.{TransferPair, days_apart, detect_internal_transfer-IsDetection}
use cash_count.Detection.RefundPairs.{RefundPair, days_after_purchase}
use cash_count.Detection.Refunds.{detect_refund-IsDetection}
use cash_count.Detection.Bills.{Confirms, detect_bill_payment_role-Confirms}

abbrev sent : DetectionFacts
sent = record {
  account_id = text "a1";
  account_type = checking;
  amount_signed = text "-100.5";
  currency = text "BRL";
  description_normalized = text "pix enviado";
  direction = outflow;
  id = text "t1";
  merchant_id = none;
  transaction_local_date = text "2024-02-29";
}

abbrev received : DetectionFacts
received = record sent {
  account_id = text "a2";
  account_type = savings;
  amount_signed = text "100.5";
  direction = inflow;
  id = text "t2";
  transaction_local_date = text "2024-03-01";
}

abbrev bought : DetectionFacts
bought = record sent {
  description_normalized = text "livraria";
  id = text "t3";
  merchant_id = some (text "m");
}

abbrev refunded : DetectionFacts
refunded = record sent {
  amount_signed = text "100.5";
  description_normalized = text "estorno livraria";
  direction = inflow;
  id = text "t4";
  merchant_id = some (text "m");
  transaction_local_date = text "2024-03-20";
}

sent-IsFacts : IsFacts sent
unfolding parse_bank_date is_decimal is_currency_code
sent-IsFacts = (refl, refl, refl)

received-IsFacts : IsFacts received
unfolding parse_bank_date is_decimal is_currency_code
received-IsFacts = (refl, refl, refl)

bought-IsFacts : IsFacts bought
unfolding parse_bank_date is_decimal is_currency_code
bought-IsFacts = (refl, refl, refl)

refunded-IsFacts : IsFacts refunded
unfolding parse_bank_date is_decimal is_currency_code
refunded-IsFacts = (refl, refl, refl)

cent-IsTolerance : IsTolerance (text "0.01")
unfolding is_decimal decimal_units
cent-IsTolerance = (refl, 10000, refl)

transfer_found :
    detect_internal_transfer exact_decimals sent (received ∷ bought ∷ []) (text "0.01")
    ≡ ok (record {
      candidates = record { candidate_id = text "t2"; date_distance_days = 1 } ∷ [];
      matched_transaction_id = some (text "t2");
      status = auto_confirmed;
    })
unfolding detect_internal_transfer is_decimal is_currency_code decimal_units amount_micros filter_ok
    map_ok ◌-ℤ◌
transfer_found = refl

detect_internal_transfer-IsDetection_example :
    (r : PairDetection) × (detect_internal_transfer exact_decimals sent
        (received ∷ [])
        (text "0.01")
      ≡ ok r)
    × IsDetection (TransferPair (text "0.01") sent) (days_apart sent) (received ∷ []) r
detect_internal_transfer-IsDetection_example =
    detect_internal_transfer-IsDetection exact_decimals exact_laws sent (received ∷ [])
      (text "0.01") sent-IsFacts (received-IsFacts, tt) cent-IsTolerance

detect_refund-IsDetection_example :
    (r : PairDetection) × (detect_refund exact_decimals refunded (bought ∷ []) (text "0.01") ≡ ok r)
    × IsDetection (RefundPair (text "0.01") refunded) (days_after_purchase refunded) (bought ∷ []) r
detect_refund-IsDetection_example =
    detect_refund-IsDetection exact_decimals exact_laws refunded (bought ∷ []) (text "0.01")
      refunded-IsFacts (bought-IsFacts, tt) cent-IsTolerance

abbrev reconciled : BillPaymentEvidence
reconciled = record {
  active_bank_reconciliation_id = some (text "r");
  matched_card_payment_child_id = none;
}

detect_bill_payment_role-Confirms_example :
    (detect_bill_payment_role sent reconciled ≡ confirmed (text "r"))
    ↔ Confirms sent reconciled (text "r")
detect_bill_payment_role-Confirms_example =
    detect_bill_payment_role-Confirms sent reconciled (text "r")
