-- ===== src/Detection/Bills.antt =====
-- When a payment of a card bill is confirmed.
use cash_count.Base.{◌≡◌, refl, true, false, Option, none, some, arith, ◌↔◌, ◌⊎◌}
use cash_count.Base.Text.{Text}
use cash_count.Policy.Types.{
  is_card, is_deposit, is_outflow, AccountType, checking, savings, credit_card, investment,
  other_account,
}
use cash_count.Detection.Facts.{DetectionFacts}
use cash_count.Detection.Detect.{
  BillPaymentEvidence, confirmed, bill_payment, detect_bill_payment_role,
}

-- The card's side has a matched payment, or the bank's side of an outflow a reconciliation.
abbrev pub Confirms : DetectionFacts → BillPaymentEvidence → Text → Type 0
Confirms t evidence reference =
    (is_card t.account_type ≡ true) × (evidence.matched_card_payment_child_id ≡ some reference)
    ⊎ (is_deposit t.account_type ≡ true)
      × (is_outflow t.direction ≡ true)
      × (evidence.active_bank_reconciliation_id ≡ some reference)

never_both : (a : AccountType) → is_card a ≡ true → is_deposit a ≡ false
never_both credit_card h = refl
never_both checking h = cc
never_both savings h = cc
never_both investment h = cc
never_both other_account h = cc

bill_payment_lem :
    (t : DetectionFacts) (card bank : Option Text) (reference : Text)
    → (bill_payment t card bank ≡ confirmed reference) ↔ (
        (is_card t.account_type ≡ true) × (card ≡ some reference)
        ⊎ (is_deposit t.account_type ≡ true)
          × (is_outflow t.direction ≡ true)
          × (bank ≡ some reference))
unfolding bill_payment
bill_payment_lem t none none reference = ((λ h. cc), λ h. grind arith)
bill_payment_lem t none (some b) reference = ((λ h. grind arith), λ h. grind arith)
bill_payment_lem t (some c) none reference = ((λ h. grind arith), λ h. grind arith)
bill_payment_lem t (some c) (some b) reference =
    ((λ h. grind (arith, never_both t.account_type)), λ h. grind (arith, never_both t.account_type))

-- Exactly this evidence confirms a payment.
pub detect_bill_payment_role-Confirms :
    (t : DetectionFacts) (evidence : BillPaymentEvidence) (reference : Text)
    → (detect_bill_payment_role t evidence ≡ confirmed reference) ↔ Confirms t evidence reference
unfolding detect_bill_payment_role
detect_bill_payment_role-Confirms t evidence reference =
    bill_payment_lem t evidence.matched_card_payment_child_id evidence.active_bank_reconciliation_id
      reference
