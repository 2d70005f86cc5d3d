-- ===== src/Rules/Log.antt =====
-- What an evaluation of ordered rules should come to, said apart from its variables: the actions of
-- the rules that match, up to the first that stops, and the first action that decides each value.
use cash_count.Base.{
  ◌≡◌, Bool, true, false, ◌||◌, Option, none, some, List, [], ◌∷◌, ◌++◌, map, exists, if◌then◌else◌,
}
use cash_count.Base.Results.{Result, ok, ◌>>=◌}
use cash_count.Base.Text.{Text, text_eq}
use cash_count.Rules.Types.{
  Inclusion, Action, set_category, set_merchant, set_financial_role, set_spend_inclusion, add_tag,
  remove_tag, mark_recurring_candidate, stop_processing, Rule, Facts, RuleError, Engine,
}
use cash_count.Rules.Documents.{parse_conditions, parse_actions}
use cash_count.Rules.Conditions.{evaluate_node}
use cash_count.Rules.Actions.{RuleState, Applied, find_tag}

-- An action with the rule that takes it.
pub record Entry : Type 0 where
  pub rule : Text
  pub action : Action

abbrev pub Log : Type 0
Log = List Entry

abbrev pub entries : Text → List Action → Log
entries rule acts = map (λ a. record { rule = rule; action = a }) acts

abbrev pub is_stop : Action → Bool
is_stop stop_processing = true
is_stop a = false

-- The actions of the rules that match, up to the first rule that stops.
unfoldable pub matching_log : Engine → Facts → List Rule → Result RuleError Log
matching_log e facts [] = ok []
matching_log e facts (r ∷ rules) =
    let rest = matching_log e facts rules in
    do
      root ← parse_conditions e r.conditions
      acts ← parse_actions e r.actions
      hit ← evaluate_node e root facts
      let after = if r.stop || exists is_stop acts then ok [] else rest
      if hit then after >>= (λ log. ok (entries r.id acts ++ log)) else rest

abbrev pub or_else : {A : Type 0} → Option A → Option A → Option A
or_else none b = b
or_else (some a) b = some a

abbrev pub applied : {A : Type 0} → Text → Option A → Option (Applied A)
applied rule none = none
applied rule (some v) = some (record { rule_id = rule; value = v })

-- The first entry whose action decides a value, and its rule.
unfoldable pub first_of : {A : Type 0} → (Action → Option A) → Log → Option (Applied A)
first_of decides [] = none
first_of decides (x ∷ log) = or_else (applied x.rule (decides x.action)) (first_of decides log)

abbrev pub category_of : Action → Option Text
category_of (set_category t) = some t
category_of a = none

abbrev pub merchant_of : Action → Option Text
merchant_of (set_merchant t) = some t
merchant_of a = none

abbrev pub financial_role_of : Action → Option Text
financial_role_of (set_financial_role t) = some t
financial_role_of a = none

abbrev pub inclusion_of : Action → Option Inclusion
inclusion_of (set_spend_inclusion i) = some i
inclusion_of a = none

abbrev pub recurring_of : Action → Option Bool
recurring_of mark_recurring_candidate = some true
recurring_of a = none

-- Whether an action adds (true) or removes (false) the tag.
abbrev pub change_of : Text → Action → Option Bool
change_of t (add_tag u) = if text_eq u t then some true else none
change_of t (remove_tag u) = if text_eq u t then some false else none
change_of t a = none

abbrev pub adds : Option (Applied Bool) → Option Text
adds none = none
adds (some c) = if c.value then some c.rule_id else none

abbrev pub removes : Option (Applied Bool) → Option Text
removes none = none
removes (some c) = if c.value then none else some c.rule_id

-- The change of a tag that the maps of tags hold: at most one of them holds the tag.
abbrev pub HasChange : Text → RuleState → Option (Applied Bool) → Type 0
HasChange t s c = (find_tag t s.added_tags ≡ adds c) × (find_tag t s.removed_tags ≡ removes c)

-- Every value of `after` is that of `before`, and else the first that the log decides.
pub record Continues (log : Log) (before after : RuleState) : Type 0 where
  pub categories : after.category ≡ or_else before.category (first_of category_of log)
  pub merchants : after.merchant ≡ or_else before.merchant (first_of merchant_of log)
  pub roles : after.financial_role ≡ or_else before.financial_role (first_of financial_role_of log)
  pub inclusions :
      after.spend_inclusion ≡ or_else before.spend_inclusion (first_of inclusion_of log)
  pub recurrences :
      after.recurring_candidate ≡ or_else before.recurring_candidate (first_of recurring_of log)
  pub tags :
      (t : Text) (c : Option (Applied Bool))
      → HasChange t before c
      → HasChange t after (or_else c (first_of (change_of t) log))
