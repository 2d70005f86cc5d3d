-- ===== src/Policy/Precedence.antt =====
-- Which role and direction `classifyTransaction` gives, as a table of the evidence.
use cash_count.Base.{◌≡◌, subst, ◌↔◌, Bool, true, false, ◌&&◌, ◌||◌, arith}
use cash_count.Base.Text.{text}
use cash_count.Base.Results.{ok, >>=-eq-ok}
use cash_count.Decimal.Money.{Decimals, Money, money_from, money_is_zero, money_is_negative}
use cash_count.Policy.Types.{
  Direction, inflow, outflow, neutral, purchase, income, transfer, card_bill_payment,
  cash_withdrawal, unknown_credit, fee, tax, refund, is_deposit, flag, ClassificationEvidence,
  Classification,
}
use cash_count.Policy.Classify.{
  classify_transaction, has_payment, role_of, default_role, direction_of,
}

-- Some evidence decides the role, whatever the account and the direction.
abbrev pub has_strong_evidence : ClassificationEvidence → Bool
has_strong_evidence e =
    has_payment e.payment_evidence
    || flag e.internal_transfer_evidence
    || flag e.finance_charge_transaction
    || flag e.tax_evidence
    || flag e.refund_evidence

-- The roles and when each is given.
pub record FollowsEvidence (e : ClassificationEvidence) (c : Classification) : Type 0 where
  pub payment : (c.role ≡ card_bill_payment) ↔ (has_payment e.payment_evidence ≡ true)
  pub transfers :
      (c.role ≡ transfer)
      ↔ ((has_payment e.payment_evidence ≡ false) × (flag e.internal_transfer_evidence ≡ true))
  pub charged : (c.role ≡ fee) ↔ (
      (has_payment e.payment_evidence ≡ false)
      × (flag e.internal_transfer_evidence ≡ false)
      × (flag e.finance_charge_transaction ≡ true))
  pub taxed : (c.role ≡ tax) ↔ (
      (has_payment e.payment_evidence ≡ false)
      × (flag e.internal_transfer_evidence ≡ false)
      × (flag e.finance_charge_transaction ≡ false)
      × (flag e.tax_evidence ≡ true))
  pub refunded : (c.role ≡ refund) ↔ (
      (has_payment e.payment_evidence ≡ false)
      × (flag e.internal_transfer_evidence ≡ false)
      × (flag e.finance_charge_transaction ≡ false)
      × (flag e.tax_evidence ≡ false)
      × (flag e.refund_evidence ≡ true))
  pub undecided_purchase :
      c.role ≡ purchase → (c.direction ≡ outflow) × (has_strong_evidence e ≡ false)
  pub withdrawal : (c.role ≡ cash_withdrawal) ↔ (
      (has_strong_evidence e ≡ false)
      × (flag e.withdrawal_evidence ≡ true)
      × (c.direction ≡ outflow))
  pub income_inflow :
      c.role ≡ income
      → (c.direction ≡ inflow)
        × (is_deposit e.account_type ≡ true)
        × (flag e.income_evidence ≡ true)
  pub credit_inflow : c.role ≡ unknown_credit → c.direction ≡ inflow
  pub deposit_not_neutral : is_deposit e.account_type ≡ true → (c.direction ≡ neutral → ⊥)

abbrev outcome : ClassificationEvidence → Bool → Bool → Classification
outcome e nil neg =
    let direction = direction_of e.account_type e.provider_type nil neg in
    record { direction = direction; role = role_of e direction nil neg }

role_of-income :
    (e : ClassificationEvidence) (direction : Direction) (nil neg : Bool)
    → role_of e direction nil neg ≡ income
    → default_role e direction nil neg ≡ income
unfolding role_of
role_of-income e direction nil neg h = ground arith

role_of-unknown_credit :
    (e : ClassificationEvidence) (direction : Direction) (nil neg : Bool)
    → role_of e direction nil neg ≡ unknown_credit
    → default_role e direction nil neg ≡ unknown_credit
unfolding role_of
role_of-unknown_credit e direction nil neg h = ground arith

default_role-not-withdrawal :
    (e : ClassificationEvidence) (direction : Direction) (nil neg : Bool)
    → default_role e direction nil neg ≡ cash_withdrawal
    → ⊥
unfolding default_role
default_role-not-withdrawal e direction nil neg h = ground arith

role_of-withdrawal :
    (e : ClassificationEvidence) (direction : Direction) (nil neg : Bool)
    → (role_of e direction nil neg ≡ cash_withdrawal) ↔ (
        (has_strong_evidence e ≡ false)
        × (flag e.withdrawal_evidence ≡ true)
        × (direction ≡ outflow))
unfolding role_of
role_of-withdrawal e direction nil neg =
    (ground (arith, default_role-not-withdrawal e direction nil neg), ground arith)

default_role-income :
    (e : ClassificationEvidence) (direction : Direction) (nil neg : Bool)
    → default_role e direction nil neg ≡ income
    → (direction ≡ inflow) × (is_deposit e.account_type ≡ true) × (flag e.income_evidence ≡ true)
unfolding default_role
default_role-income e direction nil neg h = ground arith

default_role-unknown_credit :
    (e : ClassificationEvidence) (nil neg : Bool)
    → (nil && neg) ≡ false
    → default_role e (direction_of e.account_type e.provider_type nil neg) nil neg ≡ unknown_credit
    → direction_of e.account_type e.provider_type nil neg ≡ inflow
unfolding default_role direction_of
default_role-unknown_credit e nil neg k h = ground arith

-- The table at the two sign tests, which are not both true.
outcome-FollowsEvidence :
    (e : ClassificationEvidence) (nil neg : Bool)
    → (nil && neg) ≡ false
    → FollowsEvidence e (outcome e nil neg)
unfolding direction_of role_of default_role
outcome-FollowsEvidence e nil neg k = record {
  payment = (ground arith, ground arith);
  transfers = (ground arith, ground arith);
  charged = (ground arith, ground arith);
  taxed = (ground arith, ground arith);
  refunded = (ground arith, ground arith);
  undecided_purchase = ground arith;
  withdrawal = role_of-withdrawal e (outcome e nil neg).direction nil neg;
  income_inflow = λ h.
      default_role-income e _ nil neg (role_of-income e (outcome e nil neg).direction nil neg h);
  credit_inflow = λ h.
      default_role-unknown_credit e nil neg k
        (role_of-unknown_credit e (outcome e nil neg).direction nil neg h);
  deposit_not_neutral = ground arith;
}

sign_tests_disjoint :
    (d : Decimals) (m : Money d) → (money_is_zero d m && money_is_negative d m) ≡ false
unfolding money_is_zero money_is_negative
sign_tests_disjoint d m = ground arith

-- Every classification follows the precedence of the evidence: payment evidence alone makes a bill
-- payment, transfer evidence comes next, then a finance charge makes a fee, then tax evidence a tax,
-- then refund evidence a refund, in each case exactly where nothing before it decides; a withdrawal is
-- an outflow with withdrawal evidence that no stronger evidence decides, only an undecided outflow is a
-- purchase, income is an inflow of a deposit account with income evidence, an unresolved credit is an
-- inflow, and a deposit account never has the neutral direction.
pub classify-FollowsEvidence :
    (d : Decimals) (e : ClassificationEvidence) (c : Classification)
    → classify_transaction d e ≡ ok c
    → FollowsEvidence e c
unfolding classify_transaction
classify-FollowsEvidence d e c h =
    let (m, _, h1) = >>=-eq-ok (money_from d e.provider_amount_signed (text "XXX")) _ h in
    subst (FollowsEvidence e) (cc) (
      outcome-FollowsEvidence e (money_is_zero d m) (money_is_negative d m)
        (sign_tests_disjoint d m))
