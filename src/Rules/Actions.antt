-- ===== src/Rules/Actions.antt =====
-- The loop of packages/classification/src/rule-evaluator.ts over the actions of one rule: what a
-- rule adds to the values that the rules before it left, and the conflicts it loses.
use cash_count.Base.{
  Bool, true, false, ◌||◌, Option, none, some, List, [], ◌∷◌, ◌++◌, if◌then◌else◌,
}
use cash_count.Base.Text.{Text, text, text_eq}
use cash_count.Rules.Types.{
  Inclusion, include_spend, exclude_spend, Action, set_category, set_merchant, set_financial_role,
  set_spend_inclusion, add_tag, remove_tag, mark_recurring_candidate, stop_processing,
}

pub data ConflictField : Type 0 where
  category_conflict : ConflictField
  financial_role_conflict : ConflictField
  merchant_conflict : ConflictField
  recurring_candidate_conflict : ConflictField
  spend_inclusion_conflict : ConflictField
  tag_conflict : Text → ConflictField

pub record Conflict : Type 0 where
  pub field : ConflictField
  pub losing_rule : Text
  pub losing_value : Text
  pub winning_rule : Text
  pub winning_value : Text

pub record Applied (A : Type 0) : Type 0 where
  pub rule_id : Text
  pub value : A

-- The variables of the evaluation that the actions change. A `Map` of tags is the list of its
-- values in the order of insertion.
pub record RuleState : Type 0 where
  pub added_tags : List (Applied Text)
  pub category : Option (Applied Text)
  pub financial_role : Option (Applied Text)
  pub merchant : Option (Applied Text)
  pub recurring_candidate : Option (Applied Bool)
  pub removed_tags : List (Applied Text)
  pub spend_inclusion : Option (Applied Inclusion)
  pub conflicts : List Conflict
  pub contributed : Bool
  pub stops : Bool

abbrev pub inclusion_text : Inclusion → Text
inclusion_text include_spend = text "INCLUDE"
inclusion_text exclude_spend = text "EXCLUDE"

abbrev pub inclusion_eq : Inclusion → Inclusion → Bool
inclusion_eq include_spend include_spend = true
inclusion_eq exclude_spend exclude_spend = true
inclusion_eq a b = false

-- `conflictValue` of a Boolean.
abbrev pub bool_text : Bool → Text
bool_text true = text "true"
bool_text false = text "false"

abbrev pub bool_eq : Bool → Bool → Bool
bool_eq true b = b
bool_eq false true = false
bool_eq false false = true

-- `applySingleton`: the value that stands, and the conflict that a different later one loses.
abbrev pub standing : {A : Type 0} → Option (Applied A) → A → Text → Option (Applied A)
standing none next rule = some (record { rule_id = rule; value = next })
standing (some current) next rule = some current

abbrev pub lost :
    {A : Type 0}
    → (A → A → Bool)
    → (A → Text)
    → ConflictField
    → Option (Applied A)
    → A
    → Text
    → List Conflict
lost equal show_value field none next rule = []
lost equal show_value field (some current) next rule =
    if equal current.value next
    then []
    else record {
      field = field;
      losing_rule = rule;
      losing_value = show_value next;
      winning_rule = current.rule_id;
      winning_value = show_value current.value;
    }
      ∷ []

abbrev pub is_first : {A : Type 0} → Option (Applied A) → Bool
is_first none = true
is_first (some current) = false

-- `get` of a map of tags: the rule that changed the tag.
unfoldable pub find_tag : Text → List (Applied Text) → Option Text
find_tag t [] = none
find_tag t (a ∷ tags) =
    let rest = find_tag t tags in if text_eq a.value t then some a.rule_id else rest

-- What a change of a tag does to its own map: `set` of a new key.
abbrev pub with_tag :
    Option Text → Option Text → Text → Text → List (Applied Text) → List (Applied Text)
with_tag none none t rule own = own ++ (record { rule_id = rule; value = t } ∷ [])
with_tag opposite existing t rule own = own

abbrev pub tag_lost : Option Text → Text → Text → Text → Text → List Conflict
tag_lost none t losing winning rule = []
tag_lost (some winner) t losing winning rule =
    record {
      field = tag_conflict t;
      losing_rule = rule;
      losing_value = losing;
      winning_rule = winner;
      winning_value = winning;
    }
    ∷ []

abbrev pub is_new_tag : Option Text → Option Text → Bool
is_new_tag none none = true
is_new_tag opposite existing = false

-- The `switch` on one action.
unfoldable pub apply_action : Text → Action → RuleState → RuleState
unfolding find_tag
apply_action rule (set_category t) s = record s {
  category = standing s.category t rule;
  conflicts = s.conflicts ++ lost text_eq (λ v. v) category_conflict s.category t rule;
  contributed = s.contributed || is_first s.category;
}
apply_action rule (set_merchant t) s = record s {
  merchant = standing s.merchant t rule;
  conflicts = s.conflicts ++ lost text_eq (λ v. v) merchant_conflict s.merchant t rule;
  contributed = s.contributed || is_first s.merchant;
}
apply_action rule (set_financial_role t) s = record s {
  financial_role = standing s.financial_role t rule;
  conflicts = s.conflicts ++ lost text_eq (λ v. v) financial_role_conflict s.financial_role t rule;
  contributed = s.contributed || is_first s.financial_role;
}
apply_action rule (set_spend_inclusion i) s = record s {
  spend_inclusion = standing s.spend_inclusion i rule;
  conflicts =
      s.conflicts
      ++ lost inclusion_eq inclusion_text spend_inclusion_conflict s.spend_inclusion i rule;
  contributed = s.contributed || is_first s.spend_inclusion;
}
apply_action rule (add_tag t) s = record s {
  added_tags = with_tag (find_tag t s.removed_tags) (find_tag t s.added_tags) t rule s.added_tags;
  conflicts =
      s.conflicts ++ tag_lost (find_tag t s.removed_tags) t (text "ADD") (text "REMOVE") rule;
  contributed = s.contributed || is_new_tag (find_tag t s.removed_tags) (find_tag t s.added_tags);
}
apply_action rule (remove_tag t) s = record s {
  removed_tags =
      with_tag (find_tag t s.added_tags) (find_tag t s.removed_tags) t rule s.removed_tags;
  conflicts = s.conflicts ++ tag_lost (find_tag t s.added_tags) t (text "REMOVE") (text "ADD") rule;
  contributed = s.contributed || is_new_tag (find_tag t s.added_tags) (find_tag t s.removed_tags);
}
apply_action rule mark_recurring_candidate s = record s {
  recurring_candidate = standing s.recurring_candidate true rule;
  conflicts =
      s.conflicts
      ++ lost bool_eq bool_text recurring_candidate_conflict s.recurring_candidate true rule;
  contributed = s.contributed || is_first s.recurring_candidate;
}
apply_action rule stop_processing s = record s { contributed = true; stops = true }

unfoldable pub apply_actions : Text → List Action → RuleState → RuleState
unfolding apply_action
apply_actions rule [] s = s
apply_actions rule (a ∷ rest) s = apply_actions rule rest (apply_action rule a s)
