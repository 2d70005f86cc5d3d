-- ===== src/Rules/Decided.antt =====
-- The loop over the actions of a rule: each value is decided by the first action that is about it.
use cash_count.Base.{◌≡◌, refl, sym, ap, ◌∙◌, Bool, Option, none, List, [], ◌∷◌, arith}
use cash_count.Base.Text.{Text}
use cash_count.Rules.Types.{
  Action, set_category, set_merchant, set_financial_role, set_spend_inclusion, add_tag, remove_tag,
  mark_recurring_candidate, stop_processing,
}
use cash_count.Rules.Actions.{RuleState, Applied, find_tag, apply_action, apply_actions}
use cash_count.Rules.Log.{
  Log, entries, or_else, first_of, category_of, merchant_of, financial_role_of, inclusion_of,
  recurring_of, change_of, adds, removes, HasChange, Continues,
}
use cash_count.Base.{exists, ◌||◌}
use cash_count.Rules.Log.{is_stop}
use cash_count.Rules.FirstWins.{Continues-trans, Continues-reset, left_alone}
use cash_count.Rules.TagChanges.{tag_added, tag_removed}

abbrev one : Text → Action → Log
one rule a = record { rule = rule; action = a } ∷ []

-- An action that is about no tag leaves the maps of tags.
tags_left :
    (rule : Text) (a : Action) (s : RuleState)
    → ((x : Text) → change_of x a ≡ none)
    → s.added_tags ≡ (apply_action rule a s).added_tags
    → s.removed_tags ≡ (apply_action rule a s).removed_tags
    → (x : Text) (c : Option (Applied Bool)) → HasChange x s c
    → HasChange x (apply_action rule a s) (or_else c (first_of (change_of x) (one rule a)))
tags_left rule a s none_of p q x c h =
    let same = left_alone (change_of x) rule a c (none_of x) in
    (ap (find_tag x) (sym p) ∙ h.0 ∙ ap adds same, ap (find_tag x) (sym q) ∙ h.1 ∙ ap removes same)

action_categories :
    (rule : Text) (a : Action) (s : RuleState)
    → (apply_action rule a s).category ≡ or_else s.category (first_of category_of (one rule a))
unfolding apply_action first_of
action_categories rule a s = ground arith

action_merchants :
    (rule : Text) (a : Action) (s : RuleState)
    → (apply_action rule a s).merchant ≡ or_else s.merchant (first_of merchant_of (one rule a))
unfolding apply_action first_of
action_merchants rule a s = ground arith

action_roles :
    (rule : Text) (a : Action) (s : RuleState)
    → (apply_action rule a s).financial_role
      ≡ or_else s.financial_role (first_of financial_role_of (one rule a))
unfolding apply_action first_of
action_roles rule a s = ground arith

action_inclusions :
    (rule : Text) (a : Action) (s : RuleState)
    → (apply_action rule a s).spend_inclusion
      ≡ or_else s.spend_inclusion (first_of inclusion_of (one rule a))
unfolding apply_action first_of
action_inclusions rule a s = ground arith

action_recurrences :
    (rule : Text) (a : Action) (s : RuleState)
    → (apply_action rule a s).recurring_candidate
      ≡ or_else s.recurring_candidate (first_of recurring_of (one rule a))
unfolding apply_action first_of
action_recurrences rule a s = ground arith

action_tags :
    (rule : Text) (a : Action) (s : RuleState) (t : Text) (c : Option (Applied Bool))
    → HasChange t s c
    → HasChange t (apply_action rule a s) (or_else c (first_of (change_of t) (one rule a)))
unfolding apply_action
action_tags rule (add_tag u) s t c h = tag_added t u rule s c h
action_tags rule (remove_tag u) s t c h = tag_removed t u rule s c h
action_tags rule (set_category u) s t c h =
    tags_left rule (set_category u) s (λ x. refl) refl refl t c h
action_tags rule (set_merchant u) s t c h =
    tags_left rule (set_merchant u) s (λ x. refl) refl refl t c h
action_tags rule (set_financial_role u) s t c h =
    tags_left rule (set_financial_role u) s (λ x. refl) refl refl t c h
action_tags rule (set_spend_inclusion i) s t c h =
    tags_left rule (set_spend_inclusion i) s (λ x. refl) refl refl t c h
action_tags rule mark_recurring_candidate s t c h =
    tags_left rule mark_recurring_candidate s (λ x. refl) refl refl t c h
action_tags rule stop_processing s t c h =
    tags_left rule stop_processing s (λ x. refl) refl refl t c h

action-Continues :
    (rule : Text) (a : Action) (s : RuleState) → Continues (one rule a) s (apply_action rule a s)
action-Continues rule a s = record {
  categories = action_categories rule a s;
  merchants = action_merchants rule a s;
  roles = action_roles rule a s;
  inclusions = action_inclusions rule a s;
  recurrences = action_recurrences rule a s;
  tags = action_tags rule a s;
}

-- The actions of one rule continue the state, and stop the loop if one of them says so.
pub actions-Continues :
    (rule : Text) (acts : List Action) (s : RuleState)
    → Continues (entries rule acts) s (apply_actions rule acts s)
unfolding apply_actions
actions-Continues rule [] s = Continues-reset s s.contributed s.stops
actions-Continues rule (a ∷ rest) s =
    Continues-trans (one rule a) (entries rule rest) s (apply_action rule a s)
      (apply_actions rule rest (apply_action rule a s)) (action-Continues rule a s)
      (actions-Continues rule rest (apply_action rule a s))

action_stops :
    (rule : Text) (a : Action) (s : RuleState)
    → (apply_action rule a s).stops ≡ (s.stops || is_stop a)
unfolding apply_action
action_stops rule a s = ground arith

pub actions_stop :
    (rule : Text) (acts : List Action) (s : RuleState)
    → (apply_actions rule acts s).stops ≡ (s.stops || exists is_stop acts)
unfolding apply_actions
actions_stop rule [] s = ground arith
actions_stop rule (a ∷ rest) s =
    ground (arith, actions_stop rule rest (apply_action rule a s), action_stops rule a s)
