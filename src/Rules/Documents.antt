-- ===== src/Rules/Documents.antt =====
-- The whole documents of a rule, packages/classification/src/rule-dsl.ts: the bounds on a tree of
-- conditions, and the actions that may stand together.
use cash_count.Base.{
  ℕ, suc, ◌+◌, max, Bool, true, false, not, ◌&&◌, Option, none, some, List, [], ◌∷◌, leb, exists,
  every, length, if◌then◌else◌,
}
use cash_count.Base.Results.{Result, ok, err}
use cash_count.Base.Text.{text_eq}
use cash_count.Rules.Schema.{is_valid_predicate, is_one_of, financial_roles}
use cash_count.Rules.Types.{
  Node, predicate, group, Nodes, no_nodes, also_node, Action, set_category, set_merchant,
  set_financial_role, set_spend_inclusion, add_tag, remove_tag, mark_recurring_candidate,
  stop_processing, RuleError, bad_conditions, bad_actions, Engine,
}

abbrev pub node_count : Nodes → ℕ
node_count no_nodes = 0
node_count (also_node n ns) = suc (node_count ns)

-- `inspectConditionTree`: the depth of the deepest predicate or group, and the number of nodes.
unfoldable mutual
  pub tree_depth : Node → ℕ → ℕ
  tree_depth (predicate p) depth = depth
  tree_depth (group c ns) depth = trees_depth ns depth

  pub trees_depth : Nodes → ℕ → ℕ
  trees_depth no_nodes depth = depth
  trees_depth (also_node n ns) depth = max (tree_depth n (suc depth)) (trees_depth ns depth)

unfoldable mutual
  pub tree_nodes : Node → ℕ
  tree_nodes (predicate p) = 1
  tree_nodes (group c ns) = suc (trees_nodes ns)

  pub trees_nodes : Nodes → ℕ
  trees_nodes no_nodes = 0
  trees_nodes (also_node n ns) = tree_nodes n + trees_nodes ns

-- `conditionNodeSchema`
unfoldable mutual
  pub is_valid_node : Engine → Node → Bool
  is_valid_node e (predicate p) = is_valid_predicate e p
  is_valid_node e (group c ns) =
      leb 1 (node_count ns) && leb (node_count ns) 20 && are_valid_nodes e ns

  pub are_valid_nodes : Engine → Nodes → Bool
  are_valid_nodes e no_nodes = true
  are_valid_nodes e (also_node n ns) = is_valid_node e n && are_valid_nodes e ns

unfoldable pub are_valid_conditions : Engine → Node → Bool
unfolding is_valid_node tree_depth tree_nodes
are_valid_conditions e root =
    is_valid_node e root
    && leb (tree_depth root 1) 4
    && leb (tree_nodes root) 50
    && leb (e.conditions_bytes root) 20000

unfoldable pub is_valid_action : Engine → Action → Bool
is_valid_action e (set_category t) = e.is_uuid t
is_valid_action e (set_merchant t) = e.is_uuid t
is_valid_action e (set_financial_role t) = is_one_of financial_roles t
is_valid_action e (set_spend_inclusion i) = true
is_valid_action e (add_tag t) = e.is_uuid t
is_valid_action e (remove_tag t) = e.is_uuid t
is_valid_action e mark_recurring_candidate = true
is_valid_action e stop_processing = true

-- What a rule may do only once: change one tag, or one action of any other type.
unfoldable pub is_repeated : Action → Action → Bool
is_repeated (add_tag t) (add_tag u) = text_eq t u
is_repeated (add_tag t) (remove_tag u) = text_eq t u
is_repeated (remove_tag t) (add_tag u) = text_eq t u
is_repeated (remove_tag t) (remove_tag u) = text_eq t u
is_repeated (set_category t) (set_category u) = true
is_repeated (set_merchant t) (set_merchant u) = true
is_repeated (set_financial_role t) (set_financial_role u) = true
is_repeated (set_spend_inclusion i) (set_spend_inclusion j) = true
is_repeated mark_recurring_candidate mark_recurring_candidate = true
is_repeated stop_processing stop_processing = true
is_repeated a b = false

-- The loop over the operations, with those it has seen.
unfoldable pub has_no_repeats : List Action → List Action → Bool
unfolding is_repeated
has_no_repeats seen [] = true
has_no_repeats seen (a ∷ acts) = not (exists (is_repeated a) seen) && has_no_repeats (a ∷ seen) acts

unfoldable pub are_valid_actions : Engine → List Action → Bool
unfolding is_valid_action has_no_repeats
are_valid_actions e acts =
    leb 1 (length acts)
    && leb (length acts) 20
    && every (is_valid_action e) acts
    && has_no_repeats [] acts
    && leb (e.actions_bytes acts) 20000

-- `classificationRuleConditionsSchema.parse`
unfoldable pub parse_conditions : Engine → Option Node → Result RuleError Node
parse_conditions e none = err bad_conditions
parse_conditions e (some root) = if are_valid_conditions e root then ok root else err bad_conditions

-- `classificationRuleActionsSchema.parse`
unfoldable pub parse_actions : Engine → Option (List Action) → Result RuleError (List Action)
parse_actions e none = err bad_actions
parse_actions e (some acts) = if are_valid_actions e acts then ok acts else err bad_actions
