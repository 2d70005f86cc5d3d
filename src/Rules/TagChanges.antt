-- ===== src/Rules/TagChanges.antt =====
-- The two maps of tags: one action on a tag, and the change that the maps hold of each tag.
use cash_count.Base.{
  ◌≡◌, refl, sym, ◌∙◌, Bool, true, false, Option, none, some, List, [], ◌∷◌, ◌++◌, arith,
  if◌then◌else◌, Bool-cases, inl, inr,
}
use cash_count.Base.Text.{Text, text_eq, text_eq→eq}
use cash_count.Rules.Types.{add_tag, remove_tag}
use cash_count.Rules.Actions.{RuleState, Applied, find_tag, apply_action, with_tag}
use cash_count.Rules.Log.{or_else, applied, first_of, change_of, adds, removes, HasChange}
use cash_count.Rules.FirstWins.{or_else-none}

find_tag-append :
    (t : Text) (tags : List (Applied Text)) (a : Applied Text)
    → find_tag t (tags ++ (a ∷ []))
      ≡ or_else (find_tag t tags) (if text_eq a.value t then some a.rule_id else none)
unfolding find_tag
find_tag-append t [] a = refl
find_tag-append t (b ∷ tags) a = ground (arith, find_tag-append t tags a)

abbrev unless_some : Option Text → Text → Option Text
unless_some none rule = some rule
unless_some (some winner) rule = none

-- A changed tag is found in its own map, unless the opposite map has it.
find_tag-with_tag :
    (t u rule : Text) (opposite existing : Option Text) (own : List (Applied Text))
    → find_tag u own ≡ existing
    → find_tag t (with_tag opposite existing u rule own)
      ≡ or_else (find_tag t own) (if text_eq u t then unless_some opposite rule else none)
find_tag-with_tag t u rule none none own h =
    find_tag-append t own (record { rule_id = rule; value = u })
find_tag-with_tag t u rule none (some w) own h = elim (Bool-cases (text_eq u t)) [
  | inl e ↦ let same : find_tag t own ≡ some w = cc (text_eq→eq u t e) in rw same
  | inr e ↦ rw e (sym (or_else-none (find_tag t own)))
]
find_tag-with_tag t u rule (some w) existing own h = elim (Bool-cases (text_eq u t)) [
  | inl e ↦ rw e (sym (or_else-none (find_tag t own)))
  | inr e ↦ rw e (sym (or_else-none (find_tag t own)))
]

-- The two maps at one tag, when the tag of an action is added: `b` says that it is this tag.
add_change :
    (b : Bool) (rule : Text) (c : Option (Applied Bool)) (added removed opposite : Option Text)
    → added ≡ adds c
    → removed ≡ removes c
    → (b ≡ true → opposite ≡ removed)
    → (or_else added (if b then unless_some opposite rule else none)
        ≡ adds (or_else c (or_else (applied rule (if b then some true else none)) none)))
      × (removed
          ≡ removes (or_else c (or_else (applied rule (if b then some true else none)) none)))
add_change true rule none added removed opposite h k l = let same = l refl in ground arith
add_change true rule (some a) added removed opposite h k l =
    let same = l refl in elim (Bool-cases a.value) [ inl e ↦ ground arith | inr e ↦ ground arith ]
add_change false rule none added removed opposite h k l = (rw h, k)
add_change false rule (some a) added removed opposite h k l =
    (rw (h, or_else-none (adds (some a))), k)

remove_change :
    (b : Bool) (rule : Text) (c : Option (Applied Bool)) (added removed opposite : Option Text)
    → added ≡ adds c
    → removed ≡ removes c
    → (b ≡ true → opposite ≡ added)
    → (added ≡ adds (or_else c (or_else (applied rule (if b then some false else none)) none)))
      × (or_else removed (if b then unless_some opposite rule else none)
          ≡ removes (or_else c (or_else (applied rule (if b then some false else none)) none)))
remove_change true rule none added removed opposite h k l = let same = l refl in ground arith
remove_change true rule (some a) added removed opposite h k l =
    let same = l refl in elim (Bool-cases a.value) [ inl e ↦ ground arith | inr e ↦ ground arith ]
remove_change false rule none added removed opposite h k l = (h, rw k)
remove_change false rule (some a) added removed opposite h k l =
    (h, rw (k, or_else-none (removes (some a))))

same_tag :
    (u t : Text) (tags : List (Applied Text))
    → text_eq u t ≡ true
    → find_tag u tags ≡ find_tag t tags
same_tag u t tags e = cc (text_eq→eq u t e)

-- What adding a tag does to the change that the maps hold.
pub tag_added :
    (t u rule : Text) (s : RuleState) (c : Option (Applied Bool))
    → HasChange t s c
    → HasChange t
        (apply_action rule (add_tag u) s)
        (or_else c (first_of (change_of t) (record { rule = rule; action = add_tag u } ∷ [])))
unfolding apply_action first_of
tag_added t u rule s c h =
    let opposite = find_tag u s.removed_tags in
    let found = find_tag-with_tag t u rule opposite (find_tag u s.added_tags) s.added_tags refl in
    let change =
      add_change (text_eq u t) rule c (find_tag t s.added_tags) (find_tag t s.removed_tags) opposite
        h.0 h.1 (same_tag u t s.removed_tags) in
    (found ∙ change.0, change.1)

pub tag_removed :
    (t u rule : Text) (s : RuleState) (c : Option (Applied Bool))
    → HasChange t s c
    → HasChange t
        (apply_action rule (remove_tag u) s)
        (or_else c (first_of (change_of t) (record { rule = rule; action = remove_tag u } ∷ [])))
unfolding apply_action first_of
tag_removed t u rule s c h =
    let opposite = find_tag u s.added_tags in
    let found =
      find_tag-with_tag t u rule opposite (find_tag u s.removed_tags) s.removed_tags refl in
    let change =
      remove_change (text_eq u t) rule c (find_tag t s.added_tags) (find_tag t s.removed_tags)
        opposite h.0 h.1 (same_tag u t s.added_tags) in
    (change.0, found ∙ change.1)
