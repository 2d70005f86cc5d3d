-- ===== src/Provider/Tests.antt =====
-- Snapshots of the provider.
use cash_count.Base.{ℕ, ◌+◌, ◌≡◌, refl, none, some, List, [], ◌∷◌, length}
use cash_count.Base.Results.{ok}
use cash_count.Base.Text.{text, text_eq}
use cash_count.Provider.Client.{
  Sent, asks_key, tries, State, new_key, World, ClientOptions, request,
}
use cash_count.Provider.Attempts.{Within, allowed, request-Within}
use cash_count.Provider.Answers.{IsAnswer, request-IsAnswer}
use cash_count.Provider.Lifecycle.{
  PluggyItemLifecycleInput, active, provider_error, map_pluggy_item_lifecycle,
}
use cash_count.Provider.Precedence.{Reason, map_pluggy_item_lifecycle-Reason}

abbrev healthy : PluggyItemLifecycleInput
healthy = record {
  error_code = none;
  event = none;
  execution_status = some (text "SUCCESS");
  item_status = some (text "UPDATED");
}

abbrev unknown_codes : PluggyItemLifecycleInput
unknown_codes = record healthy { execution_status = some (text "FINISHED") }

healthy_is_active : map_pluggy_item_lifecycle healthy ≡ active
unfolding map_pluggy_item_lifecycle
healthy_is_active = refl

unknown_fails_closed : map_pluggy_item_lifecycle unknown_codes ≡ provider_error
unfolding map_pluggy_item_lifecycle
unknown_fails_closed = refl

map_pluggy_item_lifecycle-Reason_example : Reason healthy (map_pluggy_item_lifecycle healthy)
map_pluggy_item_lifecycle-Reason_example = map_pluggy_item_lifecycle-Reason healthy

-- A provider that refuses the first key, then asks for patience, and then answers.
abbrev moody : List Sent → ℕ
moody [] = 0
moody (tries key ∷ []) = 500
moody (tries key ∷ rest) = 200
moody (asks_key ∷ []) = 401
moody (asks_key ∷ rest) = 503

abbrev world : World
world = record {
  now = length;
  authenticates = λ sent. new_key (text "k");
  answers = λ key sent. some (moody sent);
}

abbrev client_options : ClientOptions
client_options = record { max_retries = 3; refresh_skew_ms = 300000 }

abbrev fresh : State
fresh = record { cached = none; sent = [] }

answered_at_last : request world client_options (text "GET") fresh ≡ (
  ok 200,
  record {
    cached = some (record { expires_at_ms = 7200003; value = text "k" });
    sent = tries (text "k") ∷ tries (text "k") ∷ asks_key ∷ tries (text "k") ∷ asks_key ∷ [];
  },
)
unfolding request text_eq
answered_at_last = refl

request-Within_example :
    Within
      (allowed world client_options (text "GET") 3 + 2)
      2
      fresh
      (request world client_options (text "GET") fresh).1
request-Within_example = request-Within world client_options (text "GET") fresh

request-IsAnswer_example :
    IsAnswer world client_options (request world client_options (text "GET") fresh)
request-IsAnswer_example = request-IsAnswer world client_options (text "GET") fresh
