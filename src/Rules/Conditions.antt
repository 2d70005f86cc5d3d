-- ===== src/Rules/Conditions.antt =====
-- The conditions of a rule on the facts of a transaction: `actualValue`, `compare`,
-- `evaluatePredicate` and `evaluateNode` of packages/classification/src/rule-evaluator.ts.
use cash_count.Base.{
  Bool, true, false, not, ◌&&◌, ◌||◌, Option, none, some, List, [], ◌∷◌, leb, ◌==◌, length,
  if◌then◌else◌,
}
use cash_count.Base.Int.{ℤ, ltb_ℤ}
use cash_count.Base.Results.{Result, ok, err, ◌>>=◌, ◌>>◌, guard}
use cash_count.Base.Numbers.{JsNumber, integer}
use cash_count.Base.Text.{Text, text_leb}
use cash_count.Decimal.Units.{decimal_units}
use cash_count.Rules.Schema.{is_safe_pattern}
use cash_count.Rules.Types.{
  Field, description_normalized, system_direction, system_financial_role, provider_type,
  provider_amount_signed, provider_currency, account_currency_amount_signed, account_currency,
  account_id, account_type, transaction_local_date, installment_total, merchant_id,
  merchant_normalized_key, provider_category_id, Operator, eq, neq, contains, starts_with,
  in_values, between, gt, gte, lt, lte, regex_safe, Scalar, string_value, number_value, Value,
  scalar, array, Predicate, Combinator, all_of, any_of, Node, predicate, group, Nodes, no_nodes,
  also_node, Facts, RuleError, bad_decimal, bad_pattern, long_input, bad_type, Engine,
}

abbrev pub optional_text : Option Text → Option Scalar
optional_text none = none
optional_text (some t) = some (string_value t)

abbrev pub optional_number : Option JsNumber → Option Scalar
optional_number none = none
optional_number (some n) = some (number_value n)

-- `actualValue`; `none` is null.
unfoldable pub actual_value : Facts → Field → Option Scalar
actual_value f description_normalized = some (string_value f.description_normalized)
actual_value f system_direction = some (string_value f.system_direction)
actual_value f system_financial_role = some (string_value f.system_financial_role)
actual_value f provider_type = optional_text f.provider_type
actual_value f provider_amount_signed = some (string_value f.provider_amount_signed)
actual_value f provider_currency = some (string_value f.provider_currency)
actual_value f account_currency_amount_signed = optional_text f.account_currency_amount_signed
actual_value f account_currency = some (string_value f.account_currency)
actual_value f account_id = some (string_value f.account_id)
actual_value f account_type = some (string_value f.account_type)
actual_value f transaction_local_date = some (string_value f.transaction_local_date)
actual_value f installment_total = optional_number f.installment_total
actual_value f merchant_id = optional_text f.merchant_id
actual_value f merchant_normalized_key = optional_text f.merchant_normalized_key
actual_value f provider_category_id = optional_text f.provider_category_id

abbrev pub is_decimal_field : Field → Bool
is_decimal_field provider_amount_signed = true
is_decimal_field account_currency_amount_signed = true
is_decimal_field f = false

-- The sign of a comparison: -1, 1 or 0.
pub data Order : Type 0 where
  below : Order
  above : Order
  same : Order

abbrev pub order_of : Bool → Bool → Order
order_of true b = below
order_of false true = above
order_of false false = same

abbrev pub compare_units : Option ℤ → Option ℤ → Result RuleError Order
compare_units none b = err bad_decimal
compare_units (some a) none = err bad_decimal
compare_units (some a) (some b) = ok (order_of (ltb_ℤ a b) (ltb_ℤ b a))

abbrev pub compare_texts : Text → Text → Order
compare_texts s t = order_of (not (text_leb t s)) (not (text_leb s t))

-- `compare`. What it does with values of different types, which no rule that passes the schema
-- holds, is the error `bad_type`.
unfoldable pub compare_values : Field → Scalar → Scalar → Result RuleError Order
compare_values f (string_value s) (string_value t) =
    if is_decimal_field f
    then compare_units (decimal_units s) (decimal_units t)
    else ok (compare_texts s t)
compare_values f (number_value (integer a)) (number_value (integer b)) =
    if is_decimal_field f then err bad_type else ok (order_of (ltb_ℤ a b) (ltb_ℤ b a))
compare_values f a b = err bad_type

-- `startsWith`
unfoldable pub is_prefix : Text → Text → Bool
is_prefix [] t = true
is_prefix (c ∷ cs) [] = false
is_prefix (c ∷ cs) (d ∷ ds) = c == d && is_prefix cs ds

-- `includes`
unfoldable pub is_infix : Text → Text → Bool
unfolding is_prefix
is_infix s [] = is_prefix s []
is_infix s (d ∷ ds) = is_prefix s (d ∷ ds) || is_infix s ds

abbrev pub is_below : Order → Bool
is_below below = true
is_below o = false

abbrev pub is_above : Order → Bool
is_above above = true
is_above o = false

abbrev pub is_same : Order → Bool
is_same same = true
is_same o = false

-- One comparison and what is asked of its sign.
abbrev pub compare_as : (Order → Bool) → Result RuleError Order → Result RuleError Bool
compare_as test (ok o) = ok (test o)
compare_as test (err e) = err e

-- `some` over the candidates of `in`.
unfoldable pub is_among : Field → Scalar → List Scalar → Result RuleError Bool
unfolding compare_values
is_among f actual [] = ok false
is_among f actual (v ∷ vs) =
    let rest = is_among f actual vs in
    do found ← compare_as is_same (compare_values f actual v); if found then ok true else rest

-- The two comparisons of `between`, the second only if the first holds.
unfoldable pub is_between : Field → Scalar → Scalar → Scalar → Result RuleError Bool
unfolding compare_values
is_between f actual minimum maximum = do
  enough ← compare_as (λ o. not (is_below o)) (compare_values f actual minimum)
  if enough then compare_as (λ o. not (is_above o)) (compare_values f actual maximum) else ok false

-- `testSafeRulePattern`
unfoldable pub test_pattern : Engine → Text → Text → Result RuleError Bool
unfolding is_safe_pattern
test_pattern e pattern input = do
  guard (leb (length input) 1000) long_input
  guard (is_safe_pattern e pattern) bad_pattern
  ok (e.matches_pattern pattern input)

abbrev pub test_texts :
    (Text → Text → Result RuleError Bool) → Scalar → Value → Result RuleError Bool
test_texts test (string_value s) (scalar (string_value t)) = test s t
test_texts test a v = err bad_type

abbrev pub compare_to : (Order → Bool) → Field → Scalar → Value → Result RuleError Bool
unfolding compare_values
compare_to test f actual (scalar v) = compare_as test (compare_values f actual v)
compare_to test f actual (array vs) = err bad_type

-- The operators of `evaluatePredicate` on a value that is not null.
unfoldable pub apply_operator : Engine → Field → Operator → Scalar → Value → Result RuleError Bool
unfolding compare_to is_among is_between is_infix is_prefix test_pattern
apply_operator e f eq a v = compare_to is_same f a v
apply_operator e f neq a v = compare_to (λ o. not (is_same o)) f a v
apply_operator e f contains a v = test_texts (λ s t. ok (is_infix t s)) a v
apply_operator e f starts_with a v = test_texts (λ s t. ok (is_prefix t s)) a v
apply_operator e f in_values a (array vs) = is_among f a vs
apply_operator e f in_values a (scalar v) = err bad_type
apply_operator e f between a (array (lo ∷ hi ∷ [])) = is_between f a lo hi
apply_operator e f between a v = err bad_type
apply_operator e f gt a v = compare_to is_above f a v
apply_operator e f gte a v = compare_to (λ o. not (is_below o)) f a v
apply_operator e f lt a v = compare_to is_below f a v
apply_operator e f lte a v = compare_to (λ o. not (is_above o)) f a v
apply_operator e f regex_safe a v = test_texts (λ s t. test_pattern e t s) a v

abbrev pub apply_to : Engine → Predicate → Option Scalar → Result RuleError Bool
apply_to e p none = ok false
apply_to e p (some a) = apply_operator e p.field p.operator a p.value

unfoldable pub evaluate_predicate : Engine → Predicate → Facts → Result RuleError Bool
unfolding actual_value apply_operator
evaluate_predicate e p f = apply_to e p (actual_value f p.field)

-- `every` and `some` over the children stop at the first that decides.
abbrev pub decides : Combinator → Bool → Bool
decides all_of b = not b
decides any_of b = b

-- `evaluateNode`, and its loop over the children of a group.
unfoldable mutual
  pub evaluate_node : Engine → Node → Facts → Result RuleError Bool
  evaluate_node e (predicate p) f = evaluate_predicate e p f
  evaluate_node e (group c ns) f = evaluate_nodes e c ns f

  pub evaluate_nodes : Engine → Combinator → Nodes → Facts → Result RuleError Bool
  evaluate_nodes e c no_nodes f = ok (not (decides c true))
  evaluate_nodes e c (also_node n ns) f =
      let rest = evaluate_nodes e c ns f in
      do b ← evaluate_node e n f; if decides c b then ok b else rest
