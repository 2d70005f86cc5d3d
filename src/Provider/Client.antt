-- ===== src/Provider/Client.antt =====
-- `request` of packages/provider-pluggy/src/authenticated-http-client.ts over the API keys of
-- packages/provider-pluggy/src/api-key-provider.ts, for a client that makes one request at a time. What
-- the network and the clock answer, after what was sent so far, is a parameter.
use cash_count.Base.{
  ℕ, zero, suc, ◌+◌, ◌-◌, Bool, false, ◌&&◌, ◌||◌, Option, none, some, List, ◌∷◌, leb, ltb, ◌==◌,
  if◌then◌else◌,
}
use cash_count.Base.Results.{Result, ok, err}
use cash_count.Base.Text.{Text, text, text_eq}

pub data ClientError : Type 0 where
  http_error : ℕ → ClientError
  transport_error auth_response_error : ClientError

pub record CachedApiKey : Type 0 where
  pub expires_at_ms : ℕ
  pub value : Text

-- What reaches the provider: a refresh of the key, or an attempt with a key.
pub data Sent : Type 0 where
  asks_key : Sent
  tries : Text → Sent

-- The state of the key provider, and what was sent so far, the last first.
pub record State : Type 0 where
  pub cached : Option CachedApiKey
  pub sent : List Sent

-- An answer to a refresh: the status of an error, no answer, a body that is no key, or a key.
pub data AuthAnswer : Type 0 where
  auth_http_error : ℕ → AuthAnswer
  auth_transport_error invalid_body : AuthAnswer
  new_key : Text → AuthAnswer

pub record World : Type 0 where
  pub now : List Sent → ℕ
  pub authenticates : List Sent → AuthAnswer
  -- The status that an attempt is answered with, or nothing.
  pub answers : Text → List Sent → Option ℕ

pub record ClientOptions : Type 0 where
  pub max_retries : ℕ
  pub refresh_skew_ms : ℕ

-- `Response.ok`
abbrev pub is_ok : ℕ → Bool
is_ok status = leb 200 status && leb status 299

unfoldable pub is_retryable_status : ℕ → Bool
is_retryable_status s = s == 429 || s == 500 || s == 502 || s == 503 || s == 504

unfoldable pub is_safe_to_retry : Text → Bool
unfolding text_eq
is_safe_to_retry m = text_eq m (text "GET") || text_eq m (text "HEAD") || text_eq m (text "OPTIONS")

-- `invalidate` of the key that was refused: a newer one stays.
unfoldable pub forget : Text → Option CachedApiKey → State → State
unfolding text_eq
forget key none state = state
forget key (some c) state = if text_eq c.value key then record state { cached = none } else state

unfoldable pub invalidate : Text → State → State
unfolding forget
invalidate key state = forget key state.cached state

module _ (world : World) (options : ClientOptions) where
  -- What `#refresh` makes of the answer.
  unfoldable pub keep_key : AuthAnswer → State → Result ClientError Text × State
  keep_key (auth_http_error s) state = (err (http_error s), state)
  keep_key auth_transport_error state = (err transport_error, state)
  keep_key invalid_body state = (err auth_response_error, state)
  keep_key (new_key k) state = (
    ok k,
    record state {
      cached = some (record { expires_at_ms = world.now state.sent + 7200000; value = k });
    },
  )

  unfoldable pub refresh : State → Result ClientError Text × State
  unfolding keep_key
  refresh state =
      keep_key (world.authenticates state.sent) (record state { sent = asks_key ∷ state.sent })

  unfoldable pub cached_key : Option CachedApiKey → State → Result ClientError Text × State
  unfolding refresh
  cached_key none state = refresh state
  cached_key (some c) state =
      if ltb options.refresh_skew_ms (c.expires_at_ms - world.now state.sent)
      then (ok c.value, state)
      else refresh state

  -- `getApiKey`
  unfoldable pub get_api_key : State → Result ClientError Text × State
  unfolding cached_key
  get_api_key state = cached_key state.cached state

  -- `#attempt`
  unfoldable pub attempt : Text → State → Option ℕ × State
  attempt key state = (world.answers key state.sent, record state { sent = tries key ∷ state.sent })

  -- The end of an attempt after which no further one is allowed but `rest`, the next retry.
  unfoldable pub conclude :
      Text → Option ℕ × State → Result ClientError ℕ × State → Result ClientError ℕ × State
  unfolding is_safe_to_retry is_retryable_status
  conclude method (none, state) rest = (err transport_error, state)
  conclude method (some s, state) rest =
      if is_ok s
      then (ok s, state)
      else (if is_safe_to_retry method && is_retryable_status s
          then rest
          else (err (http_error s), state))

  abbrev pub refused : Option ℕ × State → Result ClientError ℕ × State
  refused (none, state) = (err transport_error, state)
  refused (some s, state) = (err (http_error s), state)

  -- The loop once the authentication was retried, with the retries that are left.
  unfoldable pub retrying : Text → Text → ℕ → State → Result ClientError ℕ × State
  unfolding conclude attempt
  retrying method key zero state =
      let tried = attempt key state in conclude method tried (refused tried)
  retrying method key (suc left) state =
      let tried = attempt key state in
      let rest = retrying method key left tried.1 in conclude method tried rest

  -- A new key in place of the one that was refused.
  unfoldable pub reauthenticated :
      Text → ℕ → Result ClientError Text × State → Result ClientError ℕ × State
  unfolding retrying
  reauthenticated method left (err e, state) = (err e, state)
  reauthenticated method left (ok key, state) = retrying method key left state

  abbrev pub is_unauthorized : Option ℕ → Bool
  is_unauthorized none = false
  is_unauthorized (some s) = s == 401

  -- The loop before that.
  unfoldable pub requesting : Text → Text → ℕ → State → Result ClientError ℕ × State
  unfolding attempt conclude reauthenticated get_api_key invalidate
  requesting method key zero state =
      let tried = attempt key state in
      if is_unauthorized tried.0
      then reauthenticated method 0 (get_api_key (invalidate key tried.1))
      else conclude method tried (refused tried)
  requesting method key (suc left) state =
      let tried = attempt key state in
      let rest = requesting method key left tried.1 in
      if is_unauthorized tried.0
      then reauthenticated method (suc left) (get_api_key (invalidate key tried.1))
      else conclude method tried rest

  unfoldable pub with_key : Text → Result ClientError Text × State → Result ClientError ℕ × State
  unfolding requesting
  with_key method (err e, state) = (err e, state)
  with_key method (ok key, state) = requesting method key options.max_retries state

  -- `request`
  unfoldable pub request : Text → State → Result ClientError ℕ × State
  unfolding with_key get_api_key
  request method state = with_key method (get_api_key state)
