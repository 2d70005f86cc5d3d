-- ===== src/Rules/Loop.antt =====
-- The loop of `evaluateClassificationRules` over the ordered rules, and the log of the actions of
-- those that match.
use cash_count.Base.{
  ◌≡◌, refl, sym, ap, ◌∙◌, subst, Bool, true, false, Option, none, some, List, [], ◌∷◌, ◌++◌,
  if◌then◌else◌, Bool-cases, inl, inr,
}
use cash_count.Base.Text.{Text}
use cash_count.Rules.Types.{Action}
use cash_count.Rules.Actions.{RuleState}
use cash_count.Rules.Log.{Log, entries, Continues}
use cash_count.Base.{exists, ◌||◌, is_some}
use cash_count.Base.Results.{Result, ok, ◌>>=◌, >>=-eq-ok}
use cash_count.Rules.Types.{Rule, Facts, Engine, RuleError, Node}
use cash_count.Rules.Documents.{parse_conditions, parse_actions}
use cash_count.Rules.Conditions.{evaluate_node}
use cash_count.Rules.Evaluate.{Evaluation, rule_turn, match_rule, evaluate_ordered, when_true}
use cash_count.Rules.Log.{is_stop, matching_log}
use cash_count.Rules.FirstWins.{Continues-trans, Continues-reset}
use cash_count.Rules.Decided.{actions-Continues, actions_stop}

rule_turn-Continues :
    (r : Rule) (acts : List Action) (s : RuleState)
    → Continues (entries r.id acts) s (rule_turn r acts s)
unfolding rule_turn
rule_turn-Continues r acts s =
    let reset : RuleState = record s { contributed = false; stops = false } in
    Continues-trans [] (entries r.id acts) s reset (rule_turn r acts s)
      (Continues-reset s false false) (actions-Continues r.id acts reset)

rule_turn_stops :
    (r : Rule) (acts : List Action) (s : RuleState)
    → (rule_turn r acts s).stops ≡ exists is_stop acts
unfolding rule_turn
rule_turn_stops r acts s = actions_stop r.id acts (record s { contributed = false; stops = false })

-- The loop over the ordered rules: its state continues by the log of the matching actions.
abbrev pub Logged : Engine → Facts → List Rule → Evaluation → Evaluation → Type 0
Logged e facts rules v w =
    (log : Log) × (matching_log e facts rules ≡ ok log) × Continues log v.state w.state

-- The log of a rule whose conditions came out as `hit`, from that of the rules behind it.
abbrev log_from : Rule → List Action → Bool → Result RuleError Log → Result RuleError Log
log_from r acts hit rest =
    let after = if r.stop || exists is_stop acts then ok [] else rest in
    if hit then after >>= (λ log. ok (entries r.id acts ++ log)) else rest

abbrev next_of : Rule → List Action → Bool → Evaluation → Evaluation
next_of r acts hit v = if hit then match_rule r acts v else v

-- A rule that matches and stops: its actions are the whole log.
stopping_turn :
    (r : Rule) (acts : List Action) (v : Evaluation) (rest : Result RuleError Log)
    → (r.stop || exists is_stop acts) ≡ true
    → (log : Log) × (log_from r acts true rest ≡ ok log)
      × Continues log v.state (match_rule r acts v).state
unfolding match_rule
stopping_turn r acts v rest stop =
    let after = rule_turn r acts v.state in
    (
      entries r.id acts ++ [],
      rw stop,
      Continues-trans (entries r.id acts) [] v.state after after
          (rule_turn-Continues r acts v.state)
          (Continues-reset after after.contributed after.stops),
    )

-- A rule that matches and does not stop.
passing_turn :
    (r : Rule) (acts : List Action) (v w : Evaluation) (rest : Result RuleError Log) (log : Log)
    → (r.stop || exists is_stop acts) ≡ false
    → rest ≡ ok log
    → Continues log (match_rule r acts v).state w.state
    → (all : Log) × (log_from r acts true rest ≡ ok all) × Continues all v.state w.state
unfolding match_rule
passing_turn r acts v w rest log stop m c = (
  entries r.id acts ++ log,
  rw (stop, m),
  Continues-trans (entries r.id acts) log v.state (rule_turn r acts v.state) w.state
      (rule_turn-Continues r acts v.state) c,
)

-- A turn stops the loop exactly if the rule or one of its actions says so.
match_rule_stops :
    (r : Rule) (acts : List Action) (v : Evaluation)
    → (match_rule r acts v).stopped_by ≡ when_true (r.stop || exists is_stop acts) r.id
unfolding match_rule
match_rule_stops r acts v = ap (λ b. when_true (r.stop || b) r.id) (rule_turn_stops r acts v.state)

go_on :
    {A : Type 0} (stopped : Option Text) (x y : A)
    → stopped ≡ none
    → (if is_some stopped then x else y) ≡ y
go_on none x y h = refl
go_on (some id) x y h = cc

one_turn :
    (e : Engine) (facts : Facts) (r : Rule) (rules : List Rule) (acts : List Action) (hit : Bool)
    (v w : Evaluation)
    → v.stopped_by ≡ none
    → (if is_some (next_of r acts hit v).stopped_by
        then ok (next_of r acts hit v)
        else evaluate_ordered e facts rules (next_of r acts hit v))
      ≡ ok w
    → ((u : Evaluation)
        → u.stopped_by ≡ none
        → evaluate_ordered e facts rules u ≡ ok w
        → Logged e facts rules u w)
    → (log : Log) × (log_from r acts hit (matching_log e facts rules) ≡ ok log)
      × Continues log v.state w.state
one_turn e facts r rules acts false v w n h ih =
    ih v n (sym (go_on v.stopped_by (ok v) (evaluate_ordered e facts rules v) n) ∙ h)
one_turn e facts r rules acts true v w n h ih = elim (Bool-cases (r.stop || exists is_stop acts)) [
  | inl stop ↦
      let by : (match_rule r acts v).stopped_by ≡ some r.id =
        rw stop at (match_rule_stops r acts v) in
      let same : match_rule r acts v ≡ w = cc (rw by at h) in
      subst
        (λ u.
          (log : Log) × (log_from r acts true (matching_log e facts rules) ≡ ok log)
          × Continues log v.state u.state)
        same (stopping_turn r acts v (matching_log e facts rules) stop)
  | inr pass ↦
      let by : (match_rule r acts v).stopped_by ≡ none = rw pass at (match_rule_stops r acts v) in
      let next = match_rule r acts v in
      let went_on = go_on next.stopped_by (ok next) (evaluate_ordered e facts rules next) by in
      let (log, m, c) = ih next by (sym went_on ∙ h) in
      passing_turn r acts v w (matching_log e facts rules) log pass m c
]

matching_log_cons :
    (e : Engine) (facts : Facts) (r : Rule) (rules : List Rule) (root : Node) (acts : List Action)
    (hit : Bool) (log : Log)
    → parse_conditions e r.conditions ≡ ok root
    → parse_actions e r.actions ≡ ok acts
    → evaluate_node e root facts ≡ ok hit
    → log_from r acts hit (matching_log e facts rules) ≡ ok log
    → matching_log e facts (r ∷ rules) ≡ ok log
unfolding matching_log
matching_log_cons e facts r rules root acts hit log p q t m = rw (p, q, t) m

-- The loop returns the state that the log of the matching actions decides.
pub evaluate_ordered-Logged :
    (e : Engine) (facts : Facts) (rules : List Rule) (v w : Evaluation)
    → v.stopped_by ≡ none
    → evaluate_ordered e facts rules v ≡ ok w
    → Logged e facts rules v w
unfolding evaluate_ordered matching_log
evaluate_ordered-Logged e facts [] v w n h =
    let same : v ≡ w = cc h in
    subst (Logged e facts [] v) same
      ([], refl, Continues-reset v.state v.state.contributed v.state.stops)
evaluate_ordered-Logged e facts (r ∷ rules) v w n h =
    let (root, p, h1) = >>=-eq-ok (parse_conditions e r.conditions) _ h in
    let (acts, q, h2) = >>=-eq-ok (parse_actions e r.actions) _ h1 in
    let (hit, t, h3) = >>=-eq-ok (evaluate_node e root facts) _ h2 in
    let (log, m, c) =
      one_turn e facts r rules acts hit v w n h3
        (λ u none_yet k. evaluate_ordered-Logged e facts rules u w none_yet k) in
    (log, matching_log_cons e facts r rules root acts hit log p q t m, c)
