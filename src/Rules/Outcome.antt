-- ===== src/Rules/Outcome.antt =====
-- What `evaluateClassificationRules` of packages/classification/src/rule-evaluator.ts returns: the
-- matching actions of the ordered rules, up to the first rule that stops, decide each value.
use cash_count.Base.{◌≡◌, refl, true, false, none, List, [], arith, Bool-cases, inl, inr}
use cash_count.Base.Text.{Text}
use cash_count.Rules.Actions.{RuleState}
use cash_count.Rules.Log.{
  Log, first_of, category_of, merchant_of, financial_role_of, inclusion_of, recurring_of, change_of,
  HasChange,
}
use cash_count.Base.{◌<◌, ◌⊎◌}
use cash_count.Base.Int.{ltb_ℤ, ltb_ℤ_tie}
use cash_count.Base.Results.{ok, >>=-eq-ok}
use cash_count.Base.Sorting.{Ordered, Sorted-Ordered, sort_by, sort_by-Sorted, sort_by-perm}
use cash_count.Rules.Types.{Rule, Facts, Engine}
use cash_count.Rules.Evaluate.{priority_of, millis_of}
use cash_count.Rules.Evaluate.{
  Evaluation, start, rule_order, evaluate_rules, ordered_rules, check_rules,
}
use cash_count.Rules.Log.{matching_log}
use cash_count.Base.Text.{text_leb, text_leb_total, text_leb_trans}
use mathlib.Core.List.{Perm}
use cash_count.Rules.Loop.{evaluate_ordered-Logged}

rule_order_total : (r s : Rule) → rule_order r s ≡ false → rule_order s r ≡ true
unfolding rule_order
rule_order_total r s h = ground (arith, text_leb_total r.id s.id)

rule_order_trans :
    (r s t : Rule) → rule_order r s ≡ true → rule_order s t ≡ true → rule_order r t ≡ true
unfolding rule_order
rule_order_trans r s t h k = ground (arith, text_leb_trans r.id s.id t.id)

-- By falling priority, then creation, then id.
abbrev pub Precedes : Rule → Rule → Type 0
Precedes r s =
    (ltb_ℤ (priority_of s.priority) (priority_of r.priority) ≡ true)
    ⊎ ((priority_of r.priority ≡ priority_of s.priority)
        × ((millis_of r.created_at < millis_of s.created_at)
            ⊎ ((millis_of r.created_at ≡ millis_of s.created_at) × (text_leb r.id s.id ≡ true))))

rule_order-Precedes : (r s : Rule) → rule_order r s ≡ true → Precedes r s
unfolding rule_order
rule_order-Precedes r s h =
    elim (Bool-cases (ltb_ℤ (priority_of s.priority) (priority_of r.priority))) [
      | inl e ↦ inl e
      | inr e ↦
          let not_less : ltb_ℤ (priority_of r.priority) (priority_of s.priority) ≡ false =
            ground arith in
          let same = ltb_ℤ_tie (priority_of r.priority) (priority_of s.priority) not_less e in
          inr (same, ground arith)
    ]

-- What a log decides of the values that an evaluation returns.
pub record DecidedBy (log : Log) (s : RuleState) : Type 0 where
  pub categories : s.category ≡ first_of category_of log
  pub merchants : s.merchant ≡ first_of merchant_of log
  pub roles : s.financial_role ≡ first_of financial_role_of log
  pub inclusions : s.spend_inclusion ≡ first_of inclusion_of log
  pub recurrences : s.recurring_candidate ≡ first_of recurring_of log
  pub tags : (t : Text) → HasChange t s (first_of (change_of t) log)

-- The rules in order, and the log of their matching actions that decides all values.
pub record Decided (e : Engine) (facts : Facts) (rules : List Rule) (v : Evaluation) : Type 0 where
  pub ordered : List Rule
  pub same_rules : Perm ordered rules
  pub sorted : Ordered Precedes ordered
  pub log : Log
  pub matching : matching_log e facts ordered ≡ ok log
  pub decides : DecidedBy log v.state

-- If an evaluation of rules returns, then there is an ordering of the rules by falling priority,
-- then creation, then id, in which the actions of the matching rules, up to the first rule that
-- stops, decide the result: the category, merchant, role, spend inclusion and recurrence are each
-- set by the first action of that kind, with its rule, and every tag is in the added or in the
-- removed tags, never in both, as the first action on it says.
pub evaluate_rules-Decided :
    (e : Engine) (rules : List Rule) (facts : Facts) (v : Evaluation)
    → evaluate_rules e rules facts ≡ ok v
    → Decided e facts rules v
unfolding evaluate_rules ordered_rules
evaluate_rules-Decided e rules facts v h =
    let (ordered, p, h1) = >>=-eq-ok (ordered_rules rules) _ h in
    let (checked, q, k) = >>=-eq-ok (check_rules [] rules) _ p in
    let same : sort_by rule_order rules ≡ ordered = cc k in
    let (log, m, c) =
      evaluate_ordered-Logged e facts (sort_by rule_order rules) start v refl (rw same h1) in
    record {
      ordered = sort_by rule_order rules;
      same_rules = sort_by-perm rule_order rules;
      sorted =
          Sorted-Ordered rule_order Precedes rule_order-Precedes (sort_by rule_order rules)
            (sort_by-Sorted rule_order rule_order_total rule_order_trans rules);
      log = log;
      matching = m;
      decides = record {
        categories = c.categories;
        merchants = c.merchants;
        roles = c.roles;
        inclusions = c.inclusions;
        recurrences = c.recurrences;
        tags = λ t. c.tags t none (refl, refl);
      };
    }
