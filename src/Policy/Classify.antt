-- ===== src/Policy/Classify.antt =====
-- `classifyTransaction`. The amount is parsed with the placeholder currency XXX, and only its sign
-- is used.
use cash_count.Base.{Bool, true, false, ◌&&◌, Option, none, some, if◌then◌else◌}
use cash_count.Base.Text.{text}
use cash_count.Base.Results.{Result, ok, ◌>>=◌}
use cash_count.Decimal.Money.{Decimals, MoneyError, money_from, money_is_zero, money_is_negative}
use cash_count.Policy.Types.{
  AccountType, Direction, inflow, outflow, neutral, unknown_direction, FinancialRole, purchase,
  income, transfer, card_bill_payment, refund, fee, tax, cash_withdrawal, unknown_credit,
  unknown_role, EntryType, credit_entry, debit_entry, PaymentEvidence, bank_side_confirmed,
  card_side_confirmed, no_payment, is_deposit, is_card, is_inflow, is_outflow, flag,
  ClassificationEvidence, Classification,
}

unfoldable pub derive_deposit_direction : Option EntryType → Direction
derive_deposit_direction none = unknown_direction
derive_deposit_direction (some debit_entry) = outflow
derive_deposit_direction (some credit_entry) = inflow

-- The direction of an amount on a card account, from its two sign tests.
unfoldable pub derive_card_direction : Bool → Bool → Direction
derive_card_direction zero_amount negative_amount =
    if zero_amount then neutral else if negative_amount then inflow else outflow

unfoldable pub direction_of : AccountType → Option EntryType → Bool → Bool → Direction
unfolding derive_deposit_direction derive_card_direction
direction_of account provider zero_amount negative_amount =
    if is_card account
    then derive_card_direction zero_amount negative_amount
    else if is_deposit account
    then derive_deposit_direction provider
    else unknown_direction

abbrev pub has_payment : Option PaymentEvidence → Bool
has_payment none = false
has_payment (some no_payment) = false
has_payment (some bank_side_confirmed) = true
has_payment (some card_side_confirmed) = true

-- What is left when no evidence decides the role.
unfoldable pub default_role : ClassificationEvidence → Direction → Bool → Bool → FinancialRole
default_role e direction zero_amount negative_amount =
    if is_card e.account_type
    then (if negative_amount
        then unknown_credit
        else if zero_amount
        then unknown_role
        else purchase)
    else if is_deposit e.account_type
    then (if is_outflow direction
        then purchase
        else if is_inflow direction
        then (if flag e.income_evidence then income else unknown_credit)
        else unknown_role)
    else unknown_role

unfoldable pub role_of : ClassificationEvidence → Direction → Bool → Bool → FinancialRole
role_of e direction zero_amount negative_amount =
    if has_payment e.payment_evidence
    then card_bill_payment
    else if flag e.internal_transfer_evidence
    then transfer
    else if flag e.finance_charge_transaction
    then fee
    else if flag e.tax_evidence
    then tax
    else if flag e.refund_evidence
    then refund
    else if flag e.withdrawal_evidence && is_outflow direction
    then cash_withdrawal
    else default_role e direction zero_amount negative_amount

unfoldable pub classify_transaction :
    Decimals → ClassificationEvidence → Result MoneyError Classification
unfolding direction_of role_of default_role
classify_transaction d e = do
  amount ← money_from d e.provider_amount_signed (text "XXX")
  let is_nil = money_is_zero d amount
  let is_neg = money_is_negative d amount
  let direction = direction_of e.account_type e.provider_type is_nil is_neg
  ok (record { direction = direction; role = role_of e direction is_nil is_neg })
