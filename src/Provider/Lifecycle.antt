-- ===== src/Provider/Lifecycle.antt =====
-- `mapPluggyItemLifecycle` of packages/provider-pluggy/src/lifecycle-mapper.ts.
use cash_count.Base.{
  Bool, false, ◌&&◌, ◌||◌, Option, none, some, List, [], ◌∷◌, if◌then◌else◌, exists,
}
use cash_count.Base.Text.{Text, text, text_eq}

pub record PluggyItemLifecycleInput : Type 0 where
  pub error_code : Option Text
  pub event : Option Text
  pub execution_status : Option Text
  pub item_status : Option Text

pub data ProviderConnectionLocalStatus : Type 0 where
  deleted reauth_required user_input_required user_action_required active syncing provider_error :
      ProviderConnectionLocalStatus

abbrev pub reauthentication_statuses : List Text
reauthentication_statuses =
    text "ACCOUNT_CREDENTIALS_RESET"
    ∷ text "INVALID_CREDENTIALS"
    ∷ text "USER_AUTHORIZATION_REVOKED"
    ∷ []

abbrev pub user_action_statuses : List Text
user_action_statuses =
    text "USER_AUTHORIZATION_NOT_GRANTED"
    ∷ text "USER_AUTHORIZATION_PENDING"
    ∷ text "WAITING_USER_ACTION"
    ∷ []

abbrev pub transitive_execution_statuses : List Text
transitive_execution_statuses =
    text "ACCOUNTS_IN_PROGRESS"
    ∷ text "CREATED"
    ∷ text "CREDITCARDS_IN_PROGRESS"
    ∷ text "IDENTITY_IN_PROGRESS"
    ∷ text "INVESTMENT_TRANSACTIONS_IN_PROGRESS"
    ∷ text "LOGIN_IN_PROGRESS"
    ∷ text "LOGIN_MFA_IN_PROGRESS"
    ∷ text "MERGING"
    ∷ text "PAYMENT_DATA_IN_PROGRESS"
    ∷ text "TRANSACTIONS_IN_PROGRESS"
    ∷ []

-- `===` with a string.
unfoldable pub is_code : Option Text → Text → Bool
unfolding text_eq
is_code none code = false
is_code (some c) code = text_eq c code

-- `includes` with one candidate.
unfoldable pub includes : List Text → Option Text → Bool
unfolding text_eq
includes codes none = false
includes codes (some c) = exists (text_eq c) codes

unfoldable pub map_pluggy_item_lifecycle : PluggyItemLifecycleInput → ProviderConnectionLocalStatus
unfolding is_code includes
map_pluggy_item_lifecycle x =
    if is_code x.event (text "item/deleted")
    then deleted
    else if is_code x.item_status (text "LOGIN_ERROR")
        || (includes reauthentication_statuses x.execution_status
            || includes reauthentication_statuses x.error_code)
    then reauth_required
    else if is_code x.item_status (text "WAITING_USER_INPUT")
        || is_code x.execution_status (text "WAITING_USER_INPUT")
        || is_code x.event (text "item/waiting_user_input")
    then user_input_required
    else if is_code x.item_status (text "WAITING_USER_ACTION")
        || (includes user_action_statuses x.execution_status
            || includes user_action_statuses x.error_code)
        || is_code x.event (text "item/waiting_user_action")
    then user_action_required
    else if is_code x.item_status (text "UPDATED")
        && (is_code x.execution_status (text "SUCCESS")
            || is_code x.execution_status (text "PARTIAL_SUCCESS"))
    then active
    else if is_code x.item_status (text "UPDATING")
        || includes transitive_execution_statuses x.execution_status
        || is_code x.event (text "item/login_succeeded")
    then syncing
    else provider_error
