-- ===== src/Policy/Signs.antt =====
-- The effects of a transaction as signed amounts: a table of signs, and its agreement with the code.
use cash_count.Base.{
  ◌≡◌, ◌∙◌, ap, subst, inl, inr, Bool, true, false, not, ◌||◌, Option, none, some, arith, List,
  if◌then◌else◌, Bool-cases,
}
use cash_count.Base.Int.{ℤ, pos, ◌-ℤ◌}
use cash_count.Base.Text.{Text}
use cash_count.Base.Results.{Result, ok, ◌>>=◌, >>=-eq-ok}
use cash_count.Decimal.Money.{
  Decimals, DecimalLaws, Money, MoneyError, money_zero, money_abs, money_negate, magnitude,
}
use cash_count.Decimal.Laws.{money_zero_ok}
use cash_count.Policy.Types.{
  AccountType, Direction, inflow, outflow, neutral, unknown_direction, FinancialRole, purchase,
  income, transfer, card_bill_payment, refund, fee, tax, cash_withdrawal, adjustment,
  investment_movement, credit, unknown_credit, unknown_role, Representation,
  bill_finance_charge_evidence, bill_payment_evidence, financial_transaction, is_deposit, is_inflow,
  is_outflow, flag, EffectInput, PolicyWarning,
}
use cash_count.Policy.Effects.{
  TransactionEffects, select_analytics_amount, spending_effect, cashflow_effect, effects_by,
  evidence_effects, transaction_effects, calculate_transaction_effects, positive, negative,
  is_transfer_role,
}

-- How an effect relates to the amount: its absolute value, the opposite of that, or nothing.
pub data Sign : Type 0 where
  plus minus nil : Sign

abbrev pub signed_amount : Sign → ℤ → ℤ
signed_amount plus z = pos (magnitude z)
signed_amount minus z = pos 0 -ℤ pos (magnitude z)
signed_amount nil z = pos 0

-- Purchases, fees and taxes are spent; refunds and credits are taken back.
abbrev role_sign : FinancialRole → Sign
role_sign purchase = plus
role_sign fee = plus
role_sign tax = plus
role_sign refund = minus
role_sign credit = minus
role_sign income = nil
role_sign transfer = nil
role_sign card_bill_payment = nil
role_sign cash_withdrawal = nil
role_sign adjustment = nil
role_sign investment_movement = nil
role_sign unknown_credit = nil
role_sign unknown_role = nil

abbrev direction_sign : Direction → Sign
direction_sign inflow = plus
direction_sign outflow = minus
direction_sign neutral = nil
direction_sign unknown_direction = nil

abbrev pub spending_sign : FinancialRole → Bool → Sign
spending_sign role true = nil
spending_sign role false = role_sign role

-- Only deposit accounts have cash, and a transfer moves none in or out.
abbrev pub cashflow_sign : AccountType → Direction → Bool → FinancialRole → Sign
cashflow_sign account direction internal transfer = nil
cashflow_sign account direction true _ = nil
cashflow_sign account direction false _ =
    if is_deposit account then direction_sign direction else nil

no_cash :
    (account : AccountType) (direction : Direction) (internal : Bool) (role : FinancialRole)
    → (not (is_deposit account) || internal || is_transfer_role role) ≡ true
    → cashflow_sign account direction internal role ≡ nil
no_cash account direction internal role h = ground arith

cash :
    (account : AccountType) (direction : Direction) (internal : Bool) (role : FinancialRole)
    → (not (is_deposit account) || internal || is_transfer_role role) ≡ false
    → cashflow_sign account direction internal role ≡ direction_sign direction
cash account direction internal role h = ground arith

module _ (d : Decimals) (laws : DecimalLaws d) where
  -- The effect is the amount with that sign; a missing amount with a sign has no effect known.
  abbrev pub HasSign : Sign → Option (Money d) → Option (Money d) → Type 0
  HasSign nil amount none = ⊥
  HasSign nil amount (some e) = laws.micros e.amount ≡ pos 0
  HasSign plus none none = Unit
  HasSign plus none (some e) = ⊥
  HasSign plus (some m) none = ⊥
  HasSign plus (some m) (some e) = laws.micros e.amount ≡ signed_amount plus (laws.micros m.amount)
  HasSign minus none none = Unit
  HasSign minus none (some e) = ⊥
  HasSign minus (some m) none = ⊥
  HasSign minus (some m) (some e) =
      laws.micros e.amount ≡ signed_amount minus (laws.micros m.amount)

  -- The computation returned `found`.
  abbrev Done : Option (Money d) → Option (Money d) → Type 0
  Done found effect = ◌≡◌ {A = Result MoneyError (Option (Money d))} (ok found) (ok effect)

  zero-HasSign :
      (currency : Text) (amount effect : Option (Money d))
      → (money_zero d currency >>= λ x. ok (some x)) ≡ ok effect
      → HasSign nil amount effect
  zero-HasSign currency amount effect h =
      let (m, e, k) = >>=-eq-ok (money_zero d currency) _ h in
      let (_, _, z) = money_zero_ok d laws currency m e in
      let same : some m ≡ effect = cc in subst (HasSign nil amount) same z

  positive-HasSign :
      (amount effect : Option (Money d))
      → Done (positive d amount) effect
      → HasSign plus amount effect
  unfolding money_abs
  positive-HasSign none effect h =
      let same : none ≡ effect = cc in subst (HasSign plus none) same tt
  positive-HasSign (some m) effect h =
      let same : some (money_abs d m) ≡ effect = cc in
      subst (HasSign plus (some m)) same (laws.abs_micros m.amount)

  negative-HasSign :
      (amount effect : Option (Money d))
      → Done (negative d amount) effect
      → HasSign minus amount effect
  unfolding money_abs money_negate
  negative-HasSign none effect h =
      let same : none ≡ effect = cc in subst (HasSign minus none) same tt
  negative-HasSign (some m) effect h =
      let same : some (money_negate d (money_abs d m)) ≡ effect = cc in
      subst (HasSign minus (some m)) same
        (laws.negated_micros (d.abs m.amount) ∙ ap (λ z. pos 0 -ℤ z) (laws.abs_micros m.amount))

  spending-HasSign :
      (amount : Option (Money d)) (currency : Text) (role : FinancialRole) (excluded : Bool)
      (effect : Option (Money d))
      → spending_effect d amount currency role excluded ≡ ok effect
      → HasSign (spending_sign role excluded) amount effect
  unfolding spending_effect
  spending-HasSign amount currency role true effect h = zero-HasSign currency amount effect h
  spending-HasSign amount currency purchase false effect h = positive-HasSign amount effect h
  spending-HasSign amount currency fee false effect h = positive-HasSign amount effect h
  spending-HasSign amount currency tax false effect h = positive-HasSign amount effect h
  spending-HasSign amount currency refund false effect h = negative-HasSign amount effect h
  spending-HasSign amount currency credit false effect h = negative-HasSign amount effect h
  spending-HasSign amount currency _ false effect h = zero-HasSign currency amount effect h

  direction-HasSign :
      (amount : Option (Money d)) (currency : Text) (direction : Direction)
      (effect : Option (Money d))
      → (if is_inflow direction
          then ok (positive d amount)
          else if is_outflow direction
          then ok (negative d amount)
          else money_zero d currency >>= λ x. ok (some x))
        ≡ ok effect
      → HasSign (direction_sign direction) amount effect
  direction-HasSign amount currency inflow effect h = positive-HasSign amount effect h
  direction-HasSign amount currency outflow effect h = negative-HasSign amount effect h
  direction-HasSign amount currency neutral effect h = zero-HasSign currency amount effect h
  direction-HasSign amount currency unknown_direction effect h =
      zero-HasSign currency amount effect h

  cashflow-HasSign :
      (amount : Option (Money d)) (account : AccountType) (currency : Text) (direction : Direction)
      (internal : Bool) (role : FinancialRole) (effect : Option (Money d))
      → cashflow_effect d amount account currency direction internal role ≡ ok effect
      → HasSign (cashflow_sign account direction internal role) amount effect
  unfolding cashflow_effect
  cashflow-HasSign amount account currency direction internal role effect h =
      elim (Bool-cases (not (is_deposit account) || internal || is_transfer_role role)) [
        | inl e ↦
            rw (no_cash account direction internal role e)
              (zero-HasSign currency amount effect (rw e at h))
        | inr e ↦
            rw (cash account direction internal role e)
              (direction-HasSign amount currency direction effect (rw e at h))
      ]

  abbrev CountedEffects : EffectInput → TransactionEffects d → Type 0
  CountedEffects input e =
      HasSign (spending_sign input.role (flag input.excluded_from_spend)) e.analytics_amount
        e.spending_effect
      × HasSign
          (cashflow_sign input.account_type input.direction (flag input.internal_transfer)
            input.role)
          e.analytics_amount e.cashflow_effect

  abbrev NoEffects : TransactionEffects d → Type 0
  NoEffects e =
      HasSign nil e.analytics_amount e.spending_effect
      × HasSign nil e.analytics_amount e.cashflow_effect

  -- The signs of both effects, by the representation.
  abbrev pub HasEffects : EffectInput → TransactionEffects d → Option Representation → Type 0
  HasEffects input e none = CountedEffects input e
  HasEffects input e (some financial_transaction) = CountedEffects input e
  HasEffects input e (some bill_finance_charge_evidence) = NoEffects e
  HasEffects input e (some bill_payment_evidence) = NoEffects e

  transaction_effects-counted :
      (input : EffectInput) (amount : Option (Money d)) (warnings : List PolicyWarning)
      (e : TransactionEffects d)
      → transaction_effects d input amount warnings ≡ ok e
      → CountedEffects input e
  unfolding transaction_effects
  transaction_effects-counted input amount warnings e h =
      let cash_step =
        cashflow_effect d amount input.account_type input.amounts.account_currency input.direction
          (flag input.internal_transfer) input.role in
      let spend_step =
        spending_effect d amount input.amounts.account_currency input.role
          (flag input.excluded_from_spend) in
      let (cash_found, c, h1) = >>=-eq-ok cash_step _ h in
      let (spend_found, s, h2) = >>=-eq-ok spend_step _ h1 in
      let cash_sign =
        cashflow-HasSign amount input.account_type input.amounts.account_currency input.direction
          (flag input.internal_transfer) input.role cash_found c in
      let spend_sign =
        spending-HasSign amount input.amounts.account_currency input.role
          (flag input.excluded_from_spend) spend_found s in
      let same : record {
        analytics_amount = amount;
        analytics_currency = input.amounts.account_currency;
        cashflow_effect = cash_found;
        spending_effect = spend_found;
        warnings = warnings;
      }
          ≡ e =
        cc in
      subst (CountedEffects input) same (spend_sign, cash_sign)

  evidence_effects-none :
      (input : EffectInput) (amount : Option (Money d)) (warnings : List PolicyWarning)
      (e : TransactionEffects d)
      → evidence_effects d input amount warnings ≡ ok e
      → NoEffects e
  unfolding evidence_effects
  evidence_effects-none input amount warnings e h =
      let nothing = money_zero d input.amounts.account_currency in
      let (cash_zero, c, h1) = >>=-eq-ok nothing _ h in
      let (spend_zero, s, h2) = >>=-eq-ok nothing _ h1 in
      let (_, _, z) = money_zero_ok d laws input.amounts.account_currency cash_zero c in
      let (_, _, y) = money_zero_ok d laws input.amounts.account_currency spend_zero s in
      let same : record {
        analytics_amount = amount;
        analytics_currency = input.amounts.account_currency;
        cashflow_effect = some cash_zero;
        spending_effect = some spend_zero;
        warnings = warnings;
      }
          ≡ e =
        cc in
      subst NoEffects same (y, z)

  effects_by-HasEffects :
      (representation : Option Representation) (input : EffectInput) (amount : Option (Money d))
      (e : TransactionEffects d)
      → effects_by d representation input amount ≡ ok e
      → HasEffects input e representation
  unfolding effects_by
  effects_by-HasEffects none input amount e h = transaction_effects-counted input amount _ e h
  effects_by-HasEffects (some financial_transaction) input amount e h =
      transaction_effects-counted input amount _ e h
  effects_by-HasEffects (some bill_finance_charge_evidence) input amount e h =
      evidence_effects-none input amount _ e h
  effects_by-HasEffects (some bill_payment_evidence) input amount e h =
      evidence_effects-none input amount _ e h

  -- The effects of a transaction are its analytics amount under the table of signs: bill evidence has
  -- none, excluded transactions are not spent, purchases, fees and taxes are spent and refunds and
  -- credits taken back, only deposit accounts have cash effects, and transfers have none; an amount
  -- that is missing leaves exactly the effects that would count it unknown.
  pub effects-HasEffects :
      (input : EffectInput) (e : TransactionEffects d)
      → calculate_transaction_effects d input ≡ ok e
      → HasEffects input e input.representation
  unfolding calculate_transaction_effects
  effects-HasEffects input e h =
      let (amount, _, h1) = >>=-eq-ok (select_analytics_amount d input.amounts) _ h in
      effects_by-HasEffects input.representation input amount e h1
