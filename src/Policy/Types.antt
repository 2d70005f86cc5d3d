-- ===== src/Policy/Types.antt =====
-- The enumerations and inputs of packages/domain/src/transaction-policy.ts.
use cash_count.Base.{Bool, true, false, Option}
use cash_count.Base.Text.{Text}

pub data AccountType : Type 0 where
  checking savings credit_card investment other_account : AccountType

pub data Direction : Type 0 where
  inflow outflow neutral unknown_direction : Direction

pub data FinancialRole : Type 0 where
  purchase income transfer card_bill_payment refund fee tax cash_withdrawal : FinancialRole
  adjustment investment_movement credit unknown_credit unknown_role : FinancialRole

pub data EntryType : Type 0 where
  credit_entry debit_entry : EntryType

pub data PaymentEvidence : Type 0 where
  bank_side_confirmed card_side_confirmed no_payment : PaymentEvidence

pub data Representation : Type 0 where
  bill_finance_charge_evidence bill_payment_evidence financial_transaction : Representation

pub data PolicyWarning : Type 0 where
  bill_evidence_not_counted unconverted_currency : PolicyWarning
  unresolved_card_credit unresolved_finance_charge : PolicyWarning

-- `accountType === 'CHECKING' || accountType === 'SAVINGS'`
abbrev pub is_deposit : AccountType → Bool
is_deposit checking = true
is_deposit savings = true
is_deposit credit_card = false
is_deposit investment = false
is_deposit other_account = false

abbrev pub is_card : AccountType → Bool
is_card credit_card = true
is_card checking = false
is_card savings = false
is_card investment = false
is_card other_account = false

abbrev pub is_inflow : Direction → Bool
is_inflow inflow = true
is_inflow outflow = false
is_inflow neutral = false
is_inflow unknown_direction = false

abbrev pub is_outflow : Direction → Bool
is_outflow outflow = true
is_outflow inflow = false
is_outflow neutral = false
is_outflow unknown_direction = false

-- An optional flag of an input object, `flag === true` or `flag ?? false`.
abbrev pub flag : Option Bool → Bool
flag Option.none = false
flag (Option.some b) = b

pub record ClassificationEvidence : Type 0 where
  pub account_type : AccountType
  pub finance_charge_transaction : Option Bool
  pub income_evidence : Option Bool
  pub internal_transfer_evidence : Option Bool
  pub payment_evidence : Option PaymentEvidence
  pub provider_amount_signed : Text
  pub provider_type : Option EntryType
  pub refund_evidence : Option Bool
  pub tax_evidence : Option Bool
  pub withdrawal_evidence : Option Bool

pub record Classification : Type 0 where
  pub direction : Direction
  pub role : FinancialRole

pub record SignedAmountEvidence : Type 0 where
  pub account_currency : Text
  pub account_currency_amount_signed : Option Text
  pub provider_amount_signed : Text
  pub provider_currency : Text

pub record EffectInput : Type 0 where
  pub account_type : AccountType
  pub amounts : SignedAmountEvidence
  pub direction : Direction
  pub excluded_from_spend : Option Bool
  pub finance_charge_matched_transaction : Option Bool
  pub internal_transfer : Option Bool
  pub representation : Option Representation
  pub role : FinancialRole
