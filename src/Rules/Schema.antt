-- ===== src/Rules/Schema.antt =====
-- The schema of rule documents, packages/classification/src/rule-dsl.ts: which predicates, trees of
-- conditions and lists of actions a rule may hold. A document has the right JSON shape here.
use cash_count.Base.{
  ℕ, Bool, true, false, not, ◌&&◌, ◌||◌, List, [], ◌∷◌, leb, exists, every, length, ◌==◌,
}
use cash_count.Base.Int.{pos}
use cash_count.Base.Numbers.{JsNumber, integer}
use cash_count.Base.Text.{Text, text, text_eq, matches, is_digit, is_control}
use cash_count.Decimal.Pattern.{is_decimal, is_currency_code}
use cash_count.Rules.Types.{
  Field, description_normalized, system_direction, system_financial_role, provider_type,
  provider_amount_signed, provider_currency, account_currency_amount_signed, account_currency,
  account_id, account_type, transaction_local_date, installment_total, merchant_id,
  merchant_normalized_key, provider_category_id, Operator, eq, neq, contains, starts_with,
  in_values, between, gt, gte, lt, lte, regex_safe, Scalar, string_value, number_value, other_value,
  Value, scalar, array, Predicate, Engine,
}

-- `containsControlCharacter`
unfoldable pub contains_control : Text → Bool
contains_control t = exists is_control t

unfoldable pub is_safe_text : ℕ → Text → Bool
unfolding contains_control
is_safe_text limit t = leb 1 (length t) && leb (length t) limit && not (contains_control t)

abbrev pub directions : List Text
directions = text "INFLOW" ∷ text "OUTFLOW" ∷ text "NEUTRAL" ∷ text "UNKNOWN" ∷ []

abbrev pub financial_roles : List Text
financial_roles =
    text "PURCHASE"
    ∷ text "INCOME"
    ∷ text "TRANSFER"
    ∷ text "CARD_BILL_PAYMENT"
    ∷ text "REFUND"
    ∷ text "FEE"
    ∷ text "TAX"
    ∷ text "CASH_WITHDRAWAL"
    ∷ text "ADJUSTMENT"
    ∷ text "INVESTMENT_MOVEMENT"
    ∷ text "CREDIT"
    ∷ text "UNKNOWN_CREDIT"
    ∷ text "UNKNOWN"
    ∷ []

abbrev pub provider_types : List Text
provider_types = text "DEBIT" ∷ text "CREDIT" ∷ []

abbrev pub account_types : List Text
account_types =
    text "CHECKING" ∷ text "SAVINGS" ∷ text "CREDIT_CARD" ∷ text "INVESTMENT" ∷ text "OTHER" ∷ []

abbrev pub is_one_of : List Text → Text → Bool
is_one_of ts t = exists (text_eq t) ts

pub data FieldKind : Type 0 where
  date_kind : FieldKind
  decimal_kind : FieldKind
  enum_kind : FieldKind
  integer_kind : FieldKind
  string_kind : FieldKind
  uuid_kind : FieldKind

unfoldable pub field_kind : Field → FieldKind
field_kind description_normalized = string_kind
field_kind system_direction = enum_kind
field_kind system_financial_role = enum_kind
field_kind provider_type = enum_kind
field_kind provider_amount_signed = decimal_kind
field_kind provider_currency = enum_kind
field_kind account_currency_amount_signed = decimal_kind
field_kind account_currency = enum_kind
field_kind account_id = uuid_kind
field_kind account_type = enum_kind
field_kind transaction_local_date = date_kind
field_kind installment_total = integer_kind
field_kind merchant_id = uuid_kind
field_kind merchant_normalized_key = string_kind
field_kind provider_category_id = string_kind

-- `localDateSchema`: the shape of a date, and a day of the calendar.
unfoldable pub is_local_date : Engine → Text → Bool
is_local_date e t =
    matches
      (is_digit
        ∷ is_digit
        ∷ is_digit
        ∷ is_digit
        ∷ (λ c. c == b'-')
        ∷ is_digit
        ∷ is_digit
        ∷ (λ c. c == b'-')
        ∷ is_digit
        ∷ is_digit
        ∷ [])
      t
    && e.is_calendar_date t

-- What a field's schema says of a string.
unfoldable pub is_field_text : Engine → Field → Text → Bool
unfolding is_safe_text is_decimal is_currency_code is_local_date
is_field_text e description_normalized t = is_safe_text 1000 t
is_field_text e system_direction t = is_one_of directions t
is_field_text e system_financial_role t = is_one_of financial_roles t
is_field_text e provider_type t = is_one_of provider_types t
is_field_text e provider_amount_signed t = is_decimal t
is_field_text e provider_currency t = is_currency_code t
is_field_text e account_currency_amount_signed t = is_decimal t
is_field_text e account_currency t = is_currency_code t
is_field_text e account_id t = e.is_uuid t
is_field_text e account_type t = is_one_of account_types t
is_field_text e transaction_local_date t = is_local_date e t
is_field_text e installment_total t = false
is_field_text e merchant_id t = e.is_uuid t
is_field_text e merchant_normalized_key t = is_safe_text 200 t
is_field_text e provider_category_id t = is_safe_text 200 t

-- `positiveIntegerSchema`
abbrev pub is_field_number : Field → JsNumber → Bool
is_field_number installment_total (integer (pos n)) = leb 1 n && leb n 999
is_field_number f n = false

unfoldable pub is_field_scalar : Engine → Field → Scalar → Bool
unfolding is_field_text
is_field_scalar e f (string_value t) = is_field_text e f t
is_field_scalar e f (number_value n) = is_field_number f n
is_field_scalar e f other_value = false

-- `operatorsByKind`
abbrev pub is_order : Operator → Bool
is_order gt = true
is_order gte = true
is_order lt = true
is_order lte = true
is_order between = true
is_order o = false

abbrev pub is_equality : Operator → Bool
is_equality eq = true
is_equality neq = true
is_equality in_values = true
is_equality o = false

abbrev pub is_search : Operator → Bool
is_search contains = true
is_search starts_with = true
is_search regex_safe = true
is_search o = false

unfoldable pub kind_has : FieldKind → Operator → Bool
kind_has date_kind o = is_equality o || is_order o
kind_has decimal_kind o = is_equality o || is_order o
kind_has enum_kind o = is_equality o
kind_has integer_kind o = is_equality o || is_order o
kind_has string_kind o = is_equality o || is_search o
kind_has uuid_kind o = is_equality o

-- The conditions under which `compileSafeRulePattern` returns.
unfoldable pub is_safe_pattern : Engine → Text → Bool
unfolding is_safe_text contains_control
is_safe_pattern e t = is_safe_text 256 t && e.compiles t

-- The value that an operator takes: an array, a pair, a pattern or one value of the field.
unfoldable pub is_operand : Engine → Field → Operator → Value → Bool
unfolding is_field_scalar is_safe_pattern
is_operand e f in_values (array vs) =
    leb 1 (length vs) && leb (length vs) 50 && every (is_field_scalar e f) vs
is_operand e f in_values (scalar v) = false
is_operand e f between (array (lo ∷ hi ∷ [])) = is_field_scalar e f lo && is_field_scalar e f hi
is_operand e f between v = false
is_operand e f regex_safe (scalar (string_value t)) = is_safe_pattern e t
is_operand e f regex_safe v = false
is_operand e f o (scalar v) = is_field_scalar e f v
is_operand e f o (array vs) = false

-- `validatePredicateValue`
unfoldable pub is_valid_predicate : Engine → Predicate → Bool
unfolding kind_has field_kind is_operand
is_valid_predicate e p =
    kind_has (field_kind p.field) p.operator && is_operand e p.field p.operator p.value
