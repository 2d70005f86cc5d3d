-- ===== src/Rules/Total.antt =====
-- How the evaluation of rules that pass the checks ends: the conditions of
-- packages/classification/src/rule-evaluator.ts throw on a text that is too long for patterns, and on
-- nothing else.
use cash_count.Base.{
  ◌≡◌, refl, Bool, true, false, not, ◌&&◌, Option, none, some, List, [], ◌∷◌, arith, &&_left,
  &&_right, if◌then◌else◌, All, is_some, length, ◌<◌, Bool-cases, inl, inr, ◌⊎◌,
}
use cash_count.Base.Results.{Result, ok, err, ◌>>=◌}
use cash_count.Base.Text.{Text}
use cash_count.Base.Sorting.{sort_by, All-sort_by}
use cash_count.Rules.Types.{
  Field, Scalar, string_value, number_value, other_value, long_input, Predicate, Combinator, Node,
  predicate, group, Nodes, no_nodes, also_node, Action, Rule, Facts, RuleError, Engine,
}
use cash_count.Rules.Schema.{field_kind, kind_has, is_operand, is_valid_predicate}
use cash_count.Rules.Documents.{
  is_valid_node, are_valid_nodes, are_valid_conditions, are_valid_actions, parse_conditions,
  parse_actions,
}
use cash_count.Rules.Conditions.{
  apply_to, apply_operator, evaluate_predicate, evaluate_node, evaluate_nodes, decides,
  actual_value,
}
use cash_count.Rules.Evaluate.{
  Evaluation, start, rule_order, match_rule, evaluate_ordered, evaluate_rules, ordered_rules,
  check_rules,
}
use cash_count.Rules.Returns.{Returns, is_comparable, is_short}
use cash_count.Rules.Operators.{operator-Returns, pattern_throws, is_pattern}

-- A fact of the form that its column promises: amounts are decimal strings, the number of
-- installments is an integer, and the others are strings of any length.
abbrev pub is_fact : Field → Option Scalar → Bool
is_fact f none = true
is_fact f (some v) = is_comparable f v

-- Some fact is a text of more UTF-16 units than patterns may be matched against.
abbrev pub HasLongText : Facts → Type 0
HasLongText facts =
    (f : Field) × (s : Text) × (actual_value facts f ≡ some (string_value s)) × (1000 < length s)

-- It returns, or it throws because of a text that is too long.
abbrev pub Ends : {A : Type 0} → Facts → Result RuleError A → Type 0
Ends facts m = Returns m ⊎ ((m ≡ err long_input) × HasLongText facts)

-- A rule whose two documents pass the schema.
abbrev pub has_valid_conditions : Engine → Option Node → Bool
has_valid_conditions e none = false
has_valid_conditions e (some root) = are_valid_conditions e root

abbrev pub has_valid_actions : Engine → Option (List Action) → Bool
has_valid_actions e none = false
has_valid_actions e (some acts) = are_valid_actions e acts

abbrev pub is_valid_rule : Engine → Rule → Bool
is_valid_rule e r = has_valid_conditions e r.conditions && has_valid_actions e r.actions

if_Ends :
    {A : Type 0} (facts : Facts) (b : Bool) (x : A) (m : Result RuleError A)
    → Ends facts m
    → Ends facts (if b then ok x else m)
if_Ends facts true x m h = inl (x, refl)
if_Ends facts false x m h = h

-- A part that ends well or badly decides how the whole ends.
and_then :
    {A B : Type 0} (facts : Facts) (first : Result RuleError A) (rest : A → Result RuleError B)
    → Ends facts first
    → ((a : A) → Ends facts (rest a))
    → Ends facts (first >>= rest)
and_then facts first rest (inl (a, e)) h = rw e (h a)
and_then facts first rest (inr (e, long)) h = inr (rw e, long)

conditions_parse :
    (e : Engine) (o : Option Node)
    → has_valid_conditions e o ≡ true
    → (root : Node) × (parse_conditions e o ≡ ok root) × (is_valid_node e root ≡ true)
unfolding parse_conditions are_valid_conditions
conditions_parse e none h = absurd (cc)
conditions_parse e (some root) h = (root, rw h, ground arith)

actions_parse :
    (e : Engine) (o : Option (List Action))
    → has_valid_actions e o ≡ true
    → Returns (parse_actions e o)
unfolding parse_actions
actions_parse e none h = absurd (cc)
actions_parse e (some acts) h = (acts, rw h)

long_text :
    (facts : Facts) (f : Field) (a : Scalar)
    → actual_value facts f ≡ some a
    → is_short a ≡ false
    → HasLongText facts
long_text facts f (string_value s) e h = (f, s, e, ground arith)
long_text facts f (number_value n) e h = absurd (cc)
long_text facts f other_value e h = absurd (cc)

apply-Ends :
    (e : Engine) (p : Predicate) (facts : Facts) (a : Option Scalar)
    → actual_value facts p.field ≡ a
    → is_fact p.field a ≡ true
    → is_valid_predicate e p ≡ true
    → Ends facts (apply_to e p a)
unfolding is_valid_predicate
apply-Ends e p facts none at_field h k = inl (false, refl)
apply-Ends e p facts (some a) at_field h k = elim (Bool-cases (is_short a)) [
  | inl short ↦ inl (returns (λ _. short))
  | inr long ↦ elim (Bool-cases (is_pattern p.operator)) [
    | inl o ↦ inr (
      pattern_throws e p.field p.operator a p.value o long (&&_right _ _ k),
      long_text facts p.field a at_field long,
    )
    | inr o ↦ inl (returns (λ q. absurd (cc)))
  ]
]
  where
    returns :
        (is_pattern p.operator ≡ true → is_short a ≡ true)
        → Returns (apply_operator e p.field p.operator a p.value)
    returns fits =
        operator-Returns e p.field p.operator a p.value h fits
          (&&_left (kind_has (field_kind p.field) p.operator)
            (is_operand e p.field p.operator p.value) k)
          (&&_right (kind_has (field_kind p.field) p.operator)
            (is_operand e p.field p.operator p.value) k)

predicate-Ends :
    (e : Engine) (p : Predicate) (facts : Facts)
    → ((f : Field) → is_fact f (actual_value facts f) ≡ true)
    → is_valid_predicate e p ≡ true
    → Ends facts (evaluate_predicate e p facts)
unfolding evaluate_predicate
predicate-Ends e p facts proper h =
    apply-Ends e p facts (actual_value facts p.field) refl (proper p.field) h

module _ (e : Engine) (facts : Facts)
    (proper : (f : Field) → is_fact f (actual_value facts f) ≡ true) where
  children_end :
      (c : Combinator) (n : Node) (ns : Nodes)
      → Ends facts (evaluate_node e n facts)
      → Ends facts (evaluate_nodes e c ns facts)
      → Ends facts (evaluate_nodes e c (also_node n ns) facts)
  unfolding evaluate_node
  children_end c n ns first rest =
      and_then facts (evaluate_node e n facts) _ first
        (λ b. if_Ends facts (decides c b) b (evaluate_nodes e c ns facts) rest)

  mutual
    unfolding evaluate_node is_valid_node

    node-Ends : (n : Node) → is_valid_node e n ≡ true → Ends facts (evaluate_node e n facts)
    node-Ends (predicate p) h = predicate-Ends e p facts proper h
    node-Ends (group c ns) h = nodes_end c ns (&&_right _ _ h)

    nodes_end :
        (c : Combinator) (ns : Nodes)
        → are_valid_nodes e ns ≡ true
        → Ends facts (evaluate_nodes e c ns facts)
    nodes_end c no_nodes h = inl (not (decides c true), refl)
    nodes_end c (also_node n ns) h =
        children_end c n ns (node-Ends n (&&_left _ _ h)) (nodes_end c ns (&&_right _ _ h))

  ordered-Ends :
      (rules : List Rule) (v : Evaluation)
      → All (λ r. is_valid_rule e r ≡ true) rules
      → Ends facts (evaluate_ordered e facts rules v)
  unfolding evaluate_ordered
  ordered-Ends [] v h = inl (v, refl)
  ordered-Ends (r ∷ rules) v h =
      let (root, p, valid) =
        conditions_parse e r.conditions
          (&&_left (has_valid_conditions e r.conditions) (has_valid_actions e r.actions) h.0) in
      let (acts, q) =
        actions_parse e r.actions
          (&&_right (has_valid_conditions e r.conditions) (has_valid_actions e r.actions) h.0) in
      let next : Bool → Evaluation = λ hit. if hit then match_rule r acts v else v in
      rw (p, q)
        (and_then facts (evaluate_node e root facts) _ (node-Ends root valid) (λ hit.
          if_Ends facts (is_some (next hit).stopped_by) (next hit)
            (evaluate_ordered e facts rules (next hit)) (ordered-Ends rules (next hit) h.1)))

  -- If the rules have distinct ids, PostgreSQL integers as priorities and valid times, their
  -- documents pass the schema, amounts are decimal strings, the number of installments is an integer
  -- and the other facts are strings, then the evaluation returns, or it throws the error of
  -- `testSafeRulePattern` for a text of more than 1000 UTF-16 units and some fact is such a text: no
  -- other error is thrown.
  pub evaluate_rules-Ends :
      (rules : List Rule)
      → check_rules [] rules ≡ ok tt
      → All (λ r. is_valid_rule e r ≡ true) rules
      → Ends facts (evaluate_rules e rules facts)
  unfolding evaluate_rules ordered_rules
  evaluate_rules-Ends rules checked valid = rw checked (
      ordered-Ends (sort_by rule_order rules) start
        (All-sort_by rule_order (λ r. is_valid_rule e r ≡ true) rules valid))
