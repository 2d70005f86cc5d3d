-- ===== src/Rules/Evaluate.antt =====
-- `orderedRules` and `evaluateClassificationRules` of
-- packages/classification/src/rule-evaluator.ts.
use cash_count.Base.{
  ℕ, Bool, true, false, not, ◌&&◌, ◌||◌, Option, none, some, List, [], ◌∷◌, ◌++◌, leb, ltb, ◌==◌,
  if◌then◌else◌, exists, is_some,
}
use cash_count.Base.Int.{ℤ, pos, negsuc, ltb_ℤ}
use cash_count.Base.Results.{Result, ok, ◌>>=◌, ◌>>◌, guard}
use cash_count.Base.Numbers.{JsNumber, integer, other, Instant}
use cash_count.Base.Text.{Text, text_eq, text_leb}
use cash_count.Base.Sorting.{sort_by}
use cash_count.Rules.Types.{
  Action, Rule, Facts, RuleError, duplicate_id, bad_priority, bad_instant, Engine,
}
use cash_count.Rules.Documents.{parse_conditions, parse_actions}
use cash_count.Rules.Conditions.{evaluate_node}
use cash_count.Rules.Actions.{RuleState, apply_actions}

-- A PostgreSQL integer, all of which are safe.
abbrev pub is_int32 : JsNumber → Bool
is_int32 (integer (pos n)) = leb n 2147483647
is_int32 (integer (negsuc n)) = ltb n 2147483648
is_int32 other = false

-- The loop that checks the rules, with the ids that it has seen.
unfoldable pub check_rules : List Text → List Rule → Result RuleError (Unit {0})
check_rules ids [] = ok tt
check_rules ids (r ∷ rules) =
    let rest = check_rules (r.id ∷ ids) rules in
    do
      guard (not (text_eq r.id []) && not (exists (text_eq r.id) ids)) duplicate_id
      guard (is_int32 r.priority) bad_priority
      guard (is_some r.created_at) bad_instant
      rest

-- The numbers of a rule that passed the check.
abbrev pub priority_of : JsNumber → ℤ
priority_of (integer z) = z
priority_of other = pos 0

abbrev pub millis_of : Instant → ℕ
millis_of none = 0
millis_of (some t) = t

-- The comparison of the sort: falling priority, then creation, then id.
unfoldable pub rule_order : Rule → Rule → Bool
rule_order r s =
    ltb_ℤ (priority_of s.priority) (priority_of r.priority)
    || (not (ltb_ℤ (priority_of r.priority) (priority_of s.priority))
        && (ltb (millis_of r.created_at) (millis_of s.created_at)
            || (millis_of r.created_at == millis_of s.created_at && text_leb r.id s.id)))

unfoldable pub ordered_rules : List Rule → Result RuleError (List Rule)
unfolding check_rules rule_order
ordered_rules rules = do check_rules [] rules; ok (sort_by rule_order rules)

pub record MatchedRule : Type 0 where
  pub contributed : Bool
  pub rule_id : Text
  pub stopped_processing : Bool

-- The variables of the loop over the rules.
pub record Evaluation : Type 0 where
  pub state : RuleState
  pub matched_rules : List MatchedRule
  pub stopped_by : Option Text

abbrev pub start : Evaluation
start = record {
  state = record {
    added_tags = [];
    category = none;
    financial_role = none;
    merchant = none;
    recurring_candidate = none;
    removed_tags = [];
    spend_inclusion = none;
    conflicts = [];
    contributed = false;
    stops = false;
  };
  matched_rules = [];
  stopped_by = none;
}

-- A rule that matches begins with `contributed` and `actionStops` false.
unfoldable pub rule_turn : Rule → List Action → RuleState → RuleState
unfolding apply_actions
rule_turn r acts s = apply_actions r.id acts (record s { contributed = false; stops = false })

abbrev pub when_true : Bool → Text → Option Text
when_true true id = some id
when_true false id = none

unfoldable pub match_rule : Rule → List Action → Evaluation → Evaluation
unfolding rule_turn
match_rule r acts v =
    let after = rule_turn r acts v.state in
    record v {
      state = after;
      matched_rules =
          v.matched_rules
          ++ (record {
            contributed = after.contributed;
            rule_id = r.id;
            stopped_processing = r.stop || after.stops;
          }
              ∷ []);
      stopped_by = when_true (r.stop || after.stops) r.id;
    }

-- The loop over the ordered rules, with its `continue` and its `break`.
unfoldable pub evaluate_ordered :
    Engine → Facts → List Rule → Evaluation → Result RuleError Evaluation
unfolding parse_conditions parse_actions evaluate_node match_rule
evaluate_ordered e facts [] v = ok v
evaluate_ordered e facts (r ∷ rules) v = do
  root ← parse_conditions e r.conditions
  acts ← parse_actions e r.actions
  hit ← evaluate_node e root facts
  let next = if hit then match_rule r acts v else v
  let rest = evaluate_ordered e facts rules next
  if is_some next.stopped_by then ok next else rest

unfoldable pub evaluate_rules : Engine → List Rule → Facts → Result RuleError Evaluation
unfolding ordered_rules evaluate_ordered
evaluate_rules e rules facts = do
  ordered ← ordered_rules rules
  evaluate_ordered e facts ordered start
