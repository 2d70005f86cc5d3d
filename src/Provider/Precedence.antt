-- ===== src/Provider/Precedence.antt =====
-- Which codes lead to which status of a connection.
use mathlib.Core.List.{Memᴰ}
use cash_count.Base.{
  ◌≡◌, refl, sym, subst, ap, Bool, true, Option, none, some, List, if◌then◌else◌, exists,
  exists_witness, exists_of_Memᴰ, ◌⊎◌,
}
use cash_count.Base.Deciding.{
  Decides, Decides-and, Decides-iff, Decides-or, Decides-of, Decides-text_eq,
}
use cash_count.Base.Text.{Text, text, text_eq, text_eq_refl, text_eq→eq}
use cash_count.Provider.Lifecycle.{
  PluggyItemLifecycleInput, ProviderConnectionLocalStatus, deleted, reauth_required,
  user_input_required, user_action_required, active, syncing, provider_error,
  reauthentication_statuses, user_action_statuses, transitive_execution_statuses, is_code, includes,
  map_pluggy_item_lifecycle,
}

abbrev pub Has : Option Text → Text → Type 0
Has field code = field ≡ some code

abbrev pub HasOne : Option Text → List Text → Type 0
HasOne field codes = (c : Text) × (field ≡ some c) × Memᴰ c codes

abbrev pub Deleted : PluggyItemLifecycleInput → Type 0
Deleted x = Has x.event (text "item/deleted")

abbrev pub NeedsLogin : PluggyItemLifecycleInput → Type 0
NeedsLogin x =
    Has x.item_status (text "LOGIN_ERROR")
    ⊎ HasOne x.execution_status reauthentication_statuses
    ⊎ HasOne x.error_code reauthentication_statuses

abbrev pub NeedsInput : PluggyItemLifecycleInput → Type 0
NeedsInput x =
    (Has x.item_status (text "WAITING_USER_INPUT")
      ⊎ Has x.execution_status (text "WAITING_USER_INPUT"))
    ⊎ Has x.event (text "item/waiting_user_input")

abbrev pub NeedsAction : PluggyItemLifecycleInput → Type 0
NeedsAction x =
    (Has x.item_status (text "WAITING_USER_ACTION")
      ⊎ (HasOne x.execution_status user_action_statuses ⊎ HasOne x.error_code user_action_statuses))
    ⊎ Has x.event (text "item/waiting_user_action")

abbrev pub Updated : PluggyItemLifecycleInput → Type 0
Updated x =
    Has x.item_status (text "UPDATED")
    × (Has x.execution_status (text "SUCCESS") ⊎ Has x.execution_status (text "PARTIAL_SUCCESS"))

abbrev pub InProgress : PluggyItemLifecycleInput → Type 0
InProgress x =
    (Has x.item_status (text "UPDATING") ⊎ HasOne x.execution_status transitive_execution_statuses)
    ⊎ Has x.event (text "item/login_succeeded")

-- Nothing asks for the user.
abbrev pub Undisturbed : PluggyItemLifecycleInput → Type 0
Undisturbed x = (¬ Deleted x) × (¬ NeedsLogin x) × (¬ NeedsInput x) × (¬ NeedsAction x)

-- The reason of a status, with the absence of those that go before it.
abbrev pub Reason : PluggyItemLifecycleInput → ProviderConnectionLocalStatus → Type 0
Reason x deleted = Deleted x
Reason x reauth_required = (¬ Deleted x) × NeedsLogin x
Reason x user_input_required = (¬ Deleted x) × (¬ NeedsLogin x) × NeedsInput x
Reason x user_action_required = (¬ Deleted x) × (¬ NeedsLogin x) × (¬ NeedsInput x) × NeedsAction x
Reason x active = Undisturbed x × Updated x
Reason x syncing = Undisturbed x × (¬ Updated x) × InProgress x
Reason x provider_error = Undisturbed x × (¬ Updated x) × (¬ InProgress x)

is_code-Decides :
    (field : Option Text) (code : Text) → Decides (Has field code) (is_code field code)
unfolding is_code
is_code-Decides none code = Decides.fails (λ e. cc)
is_code-Decides (some c) code = Decides-iff (λ e. ap some e) (λ e. cc) (Decides-text_eq c code)

includes-Decides :
    (codes : List Text) (field : Option Text) → Decides (HasOne field codes) (includes codes field)
unfolding includes
includes-Decides codes none = Decides.fails (λ (c, e, m). cc)
includes-Decides codes (some c) =
    Decides-of (exists (text_eq c) codes)
      (λ h.
        let (v, listed, same) = exists_witness (text_eq c) codes h in
        (c, refl, subst (λ x. Memᴰ x codes) (sym (text_eq→eq c v same)) listed))
      (λ (v, e, m).
        exists_of_Memᴰ (text_eq c) codes m (subst (λ x. text_eq c x ≡ true) (cc) (text_eq_refl c)))

-- The first reason that holds, in the order of the code.
first-Reason :
    (x : PluggyItemLifecycleInput) {a b c e f g : Bool}
    → Decides (Deleted x) a
    → Decides (NeedsLogin x) b
    → Decides (NeedsInput x) c
    → Decides (NeedsAction x) e
    → Decides (Updated x) f
    → Decides (InProgress x) g
    → Reason x (
        if a
        then deleted
        else if b
        then reauth_required
        else if c
        then user_input_required
        else if e
        then user_action_required
        else if f
        then active
        else if g
        then syncing
        else provider_error)
first-Reason x (Decides.holds p) q r s t u = p
first-Reason x (Decides.fails p) (Decides.holds q) r s t u = (p, q)
first-Reason x (Decides.fails p) (Decides.fails q) (Decides.holds r) s t u = (p, q, r)
first-Reason x (Decides.fails p) (Decides.fails q) (Decides.fails r) (Decides.holds s) t u =
    (p, q, r, s)
first-Reason x (Decides.fails p) (Decides.fails q) (Decides.fails r) (Decides.fails s)
      (Decides.holds t) u =
    ((p, q, r, s), t)
first-Reason x (Decides.fails p) (Decides.fails q) (Decides.fails r) (Decides.fails s)
      (Decides.fails t) (Decides.holds u) =
    ((p, q, r, s), t, u)
first-Reason x (Decides.fails p) (Decides.fails q) (Decides.fails r) (Decides.fails s)
      (Decides.fails t) (Decides.fails u) =
    ((p, q, r, s), t, u)

-- Every snapshot has the status of its first reason; without one it is a provider error.
pub map_pluggy_item_lifecycle-Reason :
    (x : PluggyItemLifecycleInput) → Reason x (map_pluggy_item_lifecycle x)
unfolding map_pluggy_item_lifecycle
map_pluggy_item_lifecycle-Reason x =
    first-Reason x (is_code-Decides x.event (text "item/deleted"))
      (Decides-or _ _ (is_code-Decides x.item_status (text "LOGIN_ERROR")) (
        Decides-or _ _ (includes-Decides reauthentication_statuses x.execution_status)
          (includes-Decides reauthentication_statuses x.error_code)))
      (Decides-or _ _
        (Decides-or _ _ (is_code-Decides x.item_status (text "WAITING_USER_INPUT"))
          (is_code-Decides x.execution_status (text "WAITING_USER_INPUT")))
        (is_code-Decides x.event (text "item/waiting_user_input")))
      (Decides-or _ _
        (Decides-or _ _ (is_code-Decides x.item_status (text "WAITING_USER_ACTION")) (
          Decides-or _ _ (includes-Decides user_action_statuses x.execution_status)
            (includes-Decides user_action_statuses x.error_code)))
        (is_code-Decides x.event (text "item/waiting_user_action")))
      (Decides-and _ _ (is_code-Decides x.item_status (text "UPDATED")) (λ _.
        Decides-or _ _ (is_code-Decides x.execution_status (text "SUCCESS"))
          (is_code-Decides x.execution_status (text "PARTIAL_SUCCESS"))))
      (Decides-or _ _
        (Decides-or _ _ (is_code-Decides x.item_status (text "UPDATING"))
          (includes-Decides transitive_execution_statuses x.execution_status))
        (is_code-Decides x.event (text "item/login_succeeded")))
