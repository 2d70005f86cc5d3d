-- ===== src/Rules/Types.antt =====
-- Rules, their conditions and actions, the facts they read and what an evaluation yields:
-- packages/classification/src/rule-dsl.ts and packages/classification/src/rule-evaluator.ts.
use cash_count.Base.{ℕ, Bool, Option, List}
use cash_count.Base.Text.{Text}
use cash_count.Base.Numbers.{JsNumber, Instant}

pub data Field : Type 0 where
  description_normalized : Field
  system_direction : Field
  system_financial_role : Field
  provider_type : Field
  provider_amount_signed : Field
  provider_currency : Field
  account_currency_amount_signed : Field
  account_currency : Field
  account_id : Field
  account_type : Field
  transaction_local_date : Field
  installment_total : Field
  merchant_id : Field
  merchant_normalized_key : Field
  provider_category_id : Field

pub data Operator : Type 0 where
  eq : Operator
  neq : Operator
  contains : Operator
  starts_with : Operator
  in_values : Operator
  between : Operator
  gt : Operator
  gte : Operator
  lt : Operator
  lte : Operator
  regex_safe : Operator

-- A string, a number, or any other JSON value.
pub data Scalar : Type 0 where
  string_value : Text → Scalar
  number_value : JsNumber → Scalar
  other_value : Scalar

pub data Value : Type 0 where
  scalar : Scalar → Value
  array : List Scalar → Value

pub record Predicate : Type 0 where
  pub field : Field
  pub operator : Operator
  pub value : Value

pub data Combinator : Type 0 where
  all_of : Combinator
  any_of : Combinator

mutual
  pub data Node : Type 0 where
    predicate : Predicate → Node
    group : Combinator → Nodes → Node

  pub data Nodes : Type 0 where
    no_nodes : Nodes
    also_node : Node → Nodes → Nodes

pub data Inclusion : Type 0 where
  include_spend : Inclusion
  exclude_spend : Inclusion

pub data Action : Type 0 where
  set_category : Text → Action
  set_merchant : Text → Action
  set_financial_role : Text → Action
  set_spend_inclusion : Inclusion → Action
  add_tag : Text → Action
  remove_tag : Text → Action
  mark_recurring_candidate : Action
  stop_processing : Action

-- A document of a shape that the schema refuses is `none`.
pub record Rule : Type 0 where
  pub actions : Option (List Action)
  pub conditions : Option Node
  pub created_at : Instant
  pub id : Text
  pub priority : JsNumber
  pub stop : Bool

pub record Facts : Type 0 where
  pub merchant_id : Option Text
  pub merchant_normalized_key : Option Text
  pub provider_category_id : Option Text
  pub account_currency : Text
  pub account_currency_amount_signed : Option Text
  pub account_id : Text
  pub account_type : Text
  pub description_normalized : Text
  pub installment_total : Option JsNumber
  pub provider_amount_signed : Text
  pub provider_currency : Text
  pub provider_type : Option Text
  pub system_direction : Text
  pub system_financial_role : Text
  pub transaction_local_date : Text

-- What the evaluation throws.
pub data RuleError : Type 0 where
  duplicate_id : RuleError
  bad_priority : RuleError
  bad_instant : RuleError
  bad_conditions : RuleError
  bad_actions : RuleError
  bad_decimal : RuleError
  bad_pattern : RuleError
  long_input : RuleError
  bad_type : RuleError

-- What the code takes from outside the repository: zod's UUID test, JavaScript's calendar, the
-- regular expressions of re2-wasm and the sizes of the JSON documents.
pub record Engine : Type 0 where
  pub is_uuid : Text → Bool
  pub is_calendar_date : Text → Bool
  pub compiles : Text → Bool
  pub matches_pattern : Text → Text → Bool
  pub conditions_bytes : Node → ℕ
  pub actions_bytes : List Action → ℕ
