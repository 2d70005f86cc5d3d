-- ===== src/Rules/Tests.antt =====
-- The theorems about rules at two rules that both match a purchase.
use cash_count.Base.{ℕ, zero, suc, ◌≡◌, refl, true, false, none, some, List, [], ◌∷◌, length, leb}
use cash_count.Base.Int.{pos}
use cash_count.Base.Numbers.{integer}
use cash_count.Base.Results.{ok, err}
use cash_count.Base.Text.{Text, text, text_eq, is_control}
use cash_count.Base.Sorting.{sort_by}
use cash_count.Decimal.Units.{decimal_units}
use cash_count.Rules.Schema.{is_valid_predicate}
use cash_count.Rules.Documents.{are_valid_conditions, are_valid_actions}
use cash_count.Rules.Conditions.{evaluate_predicate}
use cash_count.Rules.Types.{
  Rule, Facts, Engine, Node, predicate, group, all_of, any_of, also_node, no_nodes,
  description_normalized, provider_amount_signed, contains, lt, scalar, string_value, set_category,
  add_tag, remove_tag, stop_processing,
}
use cash_count.Base.{All}
use cash_count.Decimal.Pattern.{is_decimal}
use cash_count.Rules.Types.{
  Field, system_direction, system_financial_role, provider_type, provider_currency,
  account_currency_amount_signed, account_currency, account_id, account_type,
  transaction_local_date, installment_total, merchant_id, merchant_normalized_key,
  provider_category_id, regex_safe, long_input,
}
use cash_count.Rules.Schema.{field_kind, kind_has, is_operand, is_safe_pattern}
use cash_count.Rules.Operators.{pattern_throws}
use cash_count.Rules.Conditions.{actual_value, apply_operator}
use cash_count.Rules.Evaluate.{Evaluation, evaluate_rules, check_rules}
use cash_count.Rules.Total.{Ends, is_fact, is_valid_rule, evaluate_rules-Ends}
use cash_count.Rules.Outcome.{Decided, evaluate_rules-Decided}

abbrev engine : Engine
engine = record {
  is_uuid = λ t. leb 1 (length t);
  is_calendar_date = λ t. true;
  compiles = λ t. true;
  matches_pattern = λ pattern t. true;
  conditions_bytes = λ n. 100;
  actions_bytes = λ acts. 100;
}

abbrev market : Facts
market = record {
  merchant_id = none;
  merchant_normalized_key = none;
  provider_category_id = none;
  account_currency = text "BRL";
  account_currency_amount_signed = some (text "-60");
  account_id = text "a1";
  account_type = text "CHECKING";
  description_normalized = text "corner market";
  installment_total = none;
  provider_amount_signed = text "-12.5";
  provider_currency = text "USD";
  provider_type = some (text "DEBIT");
  system_direction = text "OUTFLOW";
  system_financial_role = text "PURCHASE";
  transaction_local_date = text "2025-03-01";
}

abbrev mentions_market : Node
mentions_market = predicate (record {
  field = description_normalized;
  operator = contains;
  value = scalar (string_value (text "market"));
})

abbrev is_outflow : Node
is_outflow = predicate (record {
  field = provider_amount_signed;
  operator = lt;
  value = scalar (string_value (text "0"));
})

-- The rule of lower priority, which also comes later.
abbrev low_rule : Rule
low_rule = record {
  actions = some (set_category (text "c2") ∷ remove_tag (text "t1") ∷ stop_processing ∷ []);
  conditions = some (group any_of (also_node is_outflow (also_node mentions_market no_nodes)));
  created_at = some 5;
  id = text "low";
  priority = integer (pos 1);
  stop = false;
}

abbrev high_rule : Rule
high_rule = record {
  actions = some (set_category (text "c1") ∷ add_tag (text "t1") ∷ []);
  conditions = some (group all_of (also_node mentions_market (also_node is_outflow no_nodes)));
  created_at = some 9;
  id = text "high";
  priority = integer (pos 7);
  stop = false;
}

abbrev rules : List Rule
rules = low_rule ∷ high_rule ∷ []

both_match : (v : Evaluation) × (evaluate_rules engine rules market ≡ ok v)
unfolding evaluate_rules text_eq sort_by are_valid_conditions is_valid_predicate is_control
    are_valid_actions evaluate_predicate decimal_units
both_match = (_, refl)

evaluate_rules-Decided_example : Decided engine market rules both_match.0
evaluate_rules-Decided_example =
    evaluate_rules-Decided engine rules market both_match.0 both_match.1

rules_checked : check_rules [] rules ≡ ok tt
unfolding check_rules text_eq
rules_checked = refl

rules_valid : All (λ r. is_valid_rule engine r ≡ true) rules
unfolding are_valid_conditions is_valid_predicate is_control are_valid_actions text_eq
rules_valid = (refl, (refl, tt))

market_proper : (f : Field) → is_fact f (actual_value market f) ≡ true
unfolding actual_value kind_has field_kind is_decimal
market_proper description_normalized = refl
market_proper system_direction = refl
market_proper system_financial_role = refl
market_proper provider_type = refl
market_proper provider_amount_signed = refl
market_proper provider_currency = refl
market_proper account_currency_amount_signed = refl
market_proper account_currency = refl
market_proper account_id = refl
market_proper account_type = refl
market_proper transaction_local_date = refl
market_proper installment_total = refl
market_proper merchant_id = refl
market_proper merchant_normalized_key = refl
market_proper provider_category_id = refl

evaluate_rules-Ends_example : Ends market (evaluate_rules engine rules market)
evaluate_rules-Ends_example =
    evaluate_rules-Ends engine market market_proper rules rules_checked rules_valid

abbrev letters : ℕ → Text
letters zero = []
letters (suc n) = 97 ∷ letters n

-- The pattern `a` throws on a merchant key of 1001 letters.
long_key_throws :
    apply_operator engine merchant_normalized_key regex_safe
      (string_value (letters 1001))
      (scalar (string_value (text "a")))
    ≡ err long_input
unfolding is_operand is_safe_pattern is_control
long_key_throws =
    pattern_throws engine merchant_normalized_key regex_safe (string_value (letters 1001))
      (scalar (string_value (text "a"))) refl refl refl
