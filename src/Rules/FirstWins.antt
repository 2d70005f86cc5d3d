-- ===== src/Rules/FirstWins.antt =====
-- The first rule wins: an action changes a value only when no earlier one decided it. The state
-- after the actions of a log continues the state before them.
use cash_count.Base.{◌≡◌, refl, sym, ap, ◌∙◌, subst, Bool, Option, none, some, [], ◌∷◌, ◌++◌}
use cash_count.Base.Text.{Text}
use cash_count.Rules.Types.{Action}
use cash_count.Rules.Actions.{RuleState, Applied, standing}
use cash_count.Rules.Log.{
  Log, or_else, applied, first_of, category_of, merchant_of, financial_role_of, inclusion_of,
  recurring_of, change_of, HasChange, Continues,
}

or_else_assoc : {A : Type 0} (a b c : Option A) → or_else (or_else a b) c ≡ or_else a (or_else b c)
or_else_assoc none b c = refl
or_else_assoc (some a) b c = refl

pub or_else-none : {A : Type 0} (a : Option A) → or_else a none ≡ a
or_else-none none = refl
or_else-none (some a) = refl

first_of-append :
    {A : Type 0} (decides : Action → Option A) (l m : Log)
    → first_of decides (l ++ m) ≡ or_else (first_of decides l) (first_of decides m)
unfolding first_of
first_of-append decides [] m = refl
first_of-append decides (x ∷ l) m =
    ap (or_else (applied x.rule (decides x.action))) (first_of-append decides l m)
    ∙ sym (
        or_else_assoc (applied x.rule (decides x.action)) (first_of decides l) (first_of decides m))

-- One value over two logs.
chain :
    {A : Type 0} (decides : Action → Option A) (l m : Log) (a b c : Option (Applied A))
    → b ≡ or_else a (first_of decides l)
    → c ≡ or_else b (first_of decides m)
    → c ≡ or_else a (first_of decides (l ++ m))
chain decides l m a b c h k =
    cc (first_of-append decides l m, or_else_assoc a (first_of decides l) (first_of decides m))

pub Continues-trans :
    (l m : Log) (s t u : RuleState) → Continues l s t → Continues m t u → Continues (l ++ m) s u
Continues-trans l m s t u h k = record {
  categories = chain category_of l m s.category t.category u.category h.categories k.categories;
  merchants = chain merchant_of l m s.merchant t.merchant u.merchant h.merchants k.merchants;
  roles =
      chain financial_role_of l m s.financial_role t.financial_role u.financial_role h.roles
        k.roles;
  inclusions =
      chain inclusion_of l m s.spend_inclusion t.spend_inclusion u.spend_inclusion h.inclusions
        k.inclusions;
  recurrences =
      chain recurring_of l m s.recurring_candidate t.recurring_candidate u.recurring_candidate
        h.recurrences k.recurrences;
  tags = λ x c e.
      subst (HasChange x u)
        (or_else_assoc c (first_of (change_of x) l) (first_of (change_of x) m)
          ∙ ap (or_else c) (sym (first_of-append (change_of x) l m)))
        (k.tags x (or_else c (first_of (change_of x) l)) (h.tags x c e));
}

-- The variables `contributed` and `actionStops` are no part of what a log decides.
pub Continues-reset :
    (s : RuleState) (b c : Bool) → Continues [] s (record s { contributed = b; stops = c })
unfolding first_of
Continues-reset s b c = record {
  categories = sym (or_else-none s.category);
  merchants = sym (or_else-none s.merchant);
  roles = sym (or_else-none s.financial_role);
  inclusions = sym (or_else-none s.spend_inclusion);
  recurrences = sym (or_else-none s.recurring_candidate);
  tags = λ t d h. subst (HasChange t s) (sym (or_else-none d)) h;
}

-- One value and the one action that may decide it.
pub decided_here :
    {A : Type 0} (decides : Action → Option A) (rule : Text) (a : Action) (v : A)
    (before : Option (Applied A))
    → decides a ≡ some v
    → standing before v rule
      ≡ or_else before (first_of decides (record { rule = rule; action = a } ∷ []))
unfolding first_of
decided_here decides rule a v none h = rw h
decided_here decides rule a v (some b) h = refl

pub left_alone :
    {A : Type 0} (decides : Action → Option A) (rule : Text) (a : Action)
    (before : Option (Applied A))
    → decides a ≡ none
    → before ≡ or_else before (first_of decides (record { rule = rule; action = a } ∷ []))
unfolding first_of
left_alone decides rule a none h = rw h
left_alone decides rule a (some b) h = refl
