-- ===== src/Detection/Detect.antt =====
-- The three detectors of packages/domain/src/financial-role-detectors.ts.
use cash_count.Base.{
  ◌-◌, Bool, false, not, ◌&&◌, ◌||◌, Option, none, some, List, [], ◌∷◌, ◌++◌, leb, ltb, ◌==◌,
  if◌then◌else◌, length, filter, exists,
}
use cash_count.Base.Int.{pos, ltb_ℤ}
use cash_count.Base.Results.{Result, ok, ◌>>=◌, map_err}
use cash_count.Base.Throwing.{filter_ok, map_ok}
use cash_count.Base.Sorting.{sort_by}
use cash_count.Base.Text.{Text, text_eq, text_leb}
use cash_count.Decimal.Money.{Decimals, Money, money_from, money_abs, money_compare}
use cash_count.Policy.Types.{is_deposit, is_card, is_inflow, is_outflow}
use cash_count.Detection.Facts.{
  DetectionFacts, Candidate, auto_confirmed, needs_review, no_match, PairDetection, DetectionError,
  money_error, tokens, contains_token, transfer_tokens, refund_tokens, date_ordinal, date_distance,
  opposite_directions, money, amount_within_tolerance,
}

-- An absent field counts as `null`.
pub record BillPaymentEvidence : Type 0 where
  pub active_bank_reconciliation_id : Option Text
  pub matched_card_payment_child_id : Option Text

-- A confirmed payment of a card bill with its reference, or the answer with status NONE.
pub data BillPaymentDetection : Type 0 where
  confirmed : Text → BillPaymentDetection
  no_bill_payment : BillPaymentDetection

unfoldable pub bank_payment : DetectionFacts → Option Text → BillPaymentDetection
bank_payment t none = no_bill_payment
bank_payment t (some reference) =
    if is_deposit t.account_type && is_outflow t.direction
    then confirmed reference
    else no_bill_payment

unfoldable pub bill_payment : DetectionFacts → Option Text → Option Text → BillPaymentDetection
unfolding bank_payment
bill_payment t none bank = bank_payment t bank
bill_payment t (some card) bank =
    if is_card t.account_type then confirmed card else bank_payment t bank

unfoldable pub detect_bill_payment_role :
    DetectionFacts → BillPaymentEvidence → BillPaymentDetection
unfolding bill_payment
detect_bill_payment_role t evidence =
    bill_payment t evidence.matched_card_payment_child_id evidence.active_bank_reconciliation_id

-- By distance, and then by id.
unfoldable pub candidate_order : Candidate → Candidate → Bool
unfolding text_leb
candidate_order a b =
    ltb a.date_distance_days b.date_distance_days
    || (a.date_distance_days == b.date_distance_days && text_leb a.candidate_id b.candidate_id)

abbrev pub no_detection : PairDetection
no_detection = record { candidates = []; matched_transaction_id = none; status = no_match }

unfoldable pub decided : List Candidate → PairDetection
decided [] = no_detection
decided (c ∷ []) = record {
  candidates = c ∷ [];
  matched_transaction_id = some c.candidate_id;
  status = auto_confirmed;
}
decided (c ∷ e ∷ rest) = record {
  candidates = c ∷ e ∷ rest;
  matched_transaction_id = none;
  status = needs_review;
}

-- The words of a description that speak of no refund, joined by spaces.
abbrev joined : List Text → Text
joined [] = []
joined (w ∷ []) = w
joined (w ∷ v ∷ rest) = w ++ (b' ' ∷ joined (v ∷ rest))

unfoldable pub refund_reference : Text → Text
unfolding tokens text_eq
refund_reference t =
    joined (filter (λ token. not (exists (text_eq token) refund_tokens)) (tokens t))

unfoldable pub same_merchant : Option Text → Option Text → Bool
unfolding text_eq
same_merchant none other = false
same_merchant (some m) none = false
same_merchant (some m) (some n) = text_eq m n

unfoldable pub transfer_candidate :
    DetectionFacts → DetectionFacts → Result DetectionError Candidate
unfolding date_distance
transfer_candidate t c = do
  distance ← date_distance t.transaction_local_date c.transaction_local_date
  ok (record { candidate_id = c.id; date_distance_days = distance })

unfoldable pub refund_candidate : DetectionFacts → DetectionFacts → Result DetectionError Candidate
unfolding date_ordinal
refund_candidate t c = do
  refunded ← date_ordinal t.transaction_local_date
  bought ← date_ordinal c.transaction_local_date
  ok (record { candidate_id = c.id; date_distance_days = refunded - bought })

module _ (d : Decimals) where
  -- Whether a transaction can be the other side of a transfer.
  unfoldable pub is_counterpart :
      DetectionFacts → Text → DetectionFacts → Result DetectionError Bool
  unfolding text_eq contains_token opposite_directions date_distance amount_within_tolerance
  is_counterpart t tolerance c =
      if not (text_eq c.id t.id)
        && not (text_eq c.account_id t.account_id)
        && is_deposit c.account_type
        && contains_token c.description_normalized transfer_tokens
        && opposite_directions t.direction c.direction
      then (do
        distance ← date_distance t.transaction_local_date c.transaction_local_date
        if leb distance 2 then amount_within_tolerance d t c tolerance else ok false)
      else ok false

  unfoldable pub detect_internal_transfer :
      DetectionFacts → List DetectionFacts → Text → Result DetectionError PairDetection
  unfolding contains_token is_counterpart transfer_candidate sort_by candidate_order decided
  detect_internal_transfer t possible tolerance =
      if not (is_deposit t.account_type)
        || not (contains_token t.description_normalized transfer_tokens)
      then ok no_detection
      else do
        matches ← filter_ok (is_counterpart t tolerance) possible
        candidates ← map_ok (transfer_candidate t) matches
        ok (decided (sort_by candidate_order candidates))

  -- The tests of a purchase that stand after those of its date.
  unfoldable pub is_refunded :
      DetectionFacts → Money d → Text → Text → DetectionFacts → Result DetectionError Bool
  unfolding money_from money_abs money_compare same_merchant text_eq amount_within_tolerance
  is_refunded t target reference tolerance c = do
    amount ← money d c.amount_signed c.currency
    sign ← map_err money_error (money_compare d target (money_abs d amount))
    let referred =
        same_merchant t.merchant_id c.merchant_id
        || (leb 3 (length reference) && text_eq reference c.description_normalized)
    if not (ltb_ℤ (pos 0) sign) && referred
        then amount_within_tolerance d t c tolerance
        else ok false

  -- Whether a transaction can be the purchase that is refunded.
  unfoldable pub is_purchase :
      DetectionFacts → Money d → Text → Text → DetectionFacts → Result DetectionError Bool
  unfolding text_eq date_ordinal is_refunded
  is_purchase t target reference tolerance c =
      if text_eq c.id t.id
        || not (text_eq c.account_id t.account_id)
        || not (is_outflow c.direction)
        || not (text_eq c.currency t.currency)
      then ok false
      else do
        refunded ← date_ordinal t.transaction_local_date
        bought ← date_ordinal c.transaction_local_date
        if ltb refunded bought || ltb 120 (refunded - bought)
            then ok false
            else is_refunded t target reference tolerance c

  unfoldable pub detect_refund :
      DetectionFacts → List DetectionFacts → Text → Result DetectionError PairDetection
  unfolding contains_token money_from money_abs refund_reference is_purchase refund_candidate
      sort_by candidate_order decided
  detect_refund t possible tolerance =
      if not (is_inflow t.direction) || not (contains_token t.description_normalized refund_tokens)
      then ok no_detection
      else do
        amount ← money d t.amount_signed t.currency
        let reference = refund_reference t.description_normalized
        matches ← filter_ok (is_purchase t (money_abs d amount) reference tolerance) possible
        candidates ← map_ok (refund_candidate t) matches
        ok (decided (sort_by candidate_order candidates))
