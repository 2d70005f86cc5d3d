-- ===== src/Provider/Attempts.antt =====
-- How often a request is sent, and what its answer is.
use cash_count.Base.{
  ℕ, zero, suc, ◌+◌, ◌≤◌, ◌≡◌, refl, subst, true, ◌&&◌, Option, none, some, List, [], ◌∷◌, arith,
  if◌then◌else◌, Bool-cases, inl, inr, ltb, ◌-◌,
}
use cash_count.Base.Results.{Result, ok, err}
use cash_count.Base.Text.{Text, text_eq}
use cash_count.Provider.Client.{
  ClientError, http_error, transport_error, CachedApiKey, Sent, asks_key, tries, State, AuthAnswer,
  auth_http_error, auth_transport_error, invalid_body, new_key, World, ClientOptions, is_ok,
  is_retryable_status, is_safe_to_retry, forget, invalidate, keep_key, refresh, cached_key,
  get_api_key, attempt, conclude, refused, is_unauthorized, retrying, reauthenticated, requesting,
  with_key, request,
}

-- The attempts and the refreshes among the messages.
abbrev pub attempts : List Sent → ℕ
attempts [] = 0
attempts (asks_key ∷ rest) = attempts rest
attempts (tries key ∷ rest) = suc (attempts rest)

abbrev pub refreshes : List Sent → ℕ
refreshes [] = 0
refreshes (asks_key ∷ rest) = suc (refreshes rest)
refreshes (tries key ∷ rest) = refreshes rest

-- At most so many more attempts and refreshes.
abbrev pub Within : ℕ → ℕ → State → State → Type 0
Within n k before after =
    (attempts after.sent ≤ attempts before.sent + n)
    × (refreshes after.sent ≤ refreshes before.sent + k)

invalidate-sent : (key : Text) (state : State) → (invalidate key state).sent ≡ state.sent
unfolding invalidate
invalidate-sent key state = forget-sent state.cached
  where
    forget-sent : (c : Option CachedApiKey) → (forget key c state).sent ≡ state.sent
    forget-sent none = refl
    forget-sent (some c) = elim (Bool-cases (text_eq c.value key)) [
      | inl e ↦ rw e refl
      | inr e ↦ rw e refl
    ]

Within-trans :
    (a b c : State) (n k i j l m : ℕ)
    → Within n k a b
    → Within i j b c
    → n + i ≤ l
    → k + j ≤ m
    → Within l m a c
Within-trans a b c n k i j l m h g p q = (omega (arith, h.0, g.0, p), omega (arith, h.1, g.1, q))

module _ (world : World) (options : ClientOptions) where
  refresh-Within : (state : State) → Within 0 1 state (refresh world options state).1
  unfolding refresh
  refresh-Within state = kept (world.authenticates state.sent)
    where
      kept :
          (answer : AuthAnswer)
          → Within 0 1 state
              (keep_key world options answer (record state { sent = asks_key ∷ state.sent })).1
      kept (auth_http_error s) = (omega arith, omega arith)
      kept auth_transport_error = (omega arith, omega arith)
      kept invalid_body = (omega arith, omega arith)
      kept (new_key k) = (omega arith, omega arith)

  get_api_key-Within : (state : State) → Within 0 1 state (get_api_key world options state).1
  unfolding get_api_key
  get_api_key-Within state = cached state.cached
    where
      cached : (c : Option CachedApiKey) → Within 0 1 state (cached_key world options c state).1
      cached none = refresh-Within state
      cached (some c) =
          elim (Bool-cases (ltb options.refresh_skew_ms (c.expires_at_ms - world.now state.sent))) [
            | inl e ↦ rw e (omega arith, omega arith)
            | inr e ↦ rw e (refresh-Within state)
          ]

  -- What holds where an attempt ends, and where it is retried, which only a safe method is.
  pub conclude-elim {ℓ} :
      (P : Result ClientError ℕ × State → Type ℓ) (method : Text) (tried : Option ℕ × State)
      (rest : Result ClientError ℕ × State)
      → P (err transport_error, tried.1)
      → ((s : ℕ) → tried.0 ≡ some s → is_ok s ≡ true → P (ok s, tried.1))
      → ((s : ℕ) → P (err (http_error s), tried.1))
      → (is_safe_to_retry method ≡ true → P rest)
      → P (conclude world options method tried rest)
  unfolding conclude
  conclude-elim P method (none, state) rest p q r t = p
  conclude-elim P method (some s, state) rest p q r t = elim (Bool-cases (is_ok s)) [
    | inl e ↦ rw e (q s refl e)
    | inr e ↦ elim (Bool-cases (is_safe_to_retry method && is_retryable_status s)) [
      | inl f ↦ rw (e, f) (t (ground arith))
      | inr f ↦ rw (e, f) (r s)
    ]
  ]

  pub refused-elim {ℓ} :
      (P : Result ClientError ℕ × State → Type ℓ) (tried : Option ℕ × State)
      → P (err transport_error, tried.1)
      → ((s : ℕ) → P (err (http_error s), tried.1))
      → P (refused world options tried)
  refused-elim P (none, state) p q = p
  refused-elim P (some s, state) p q = q s

  -- The retries that a method may take.
  abbrev pub allowed : Text → ℕ → ℕ
  allowed method left = if is_safe_to_retry method then left else 0

  allowed_safe :
      (method : Text) (left : ℕ) → is_safe_to_retry method ≡ true → allowed method left ≡ left
  allowed_safe method left h = rw h refl

  one_try :
      (key : Text) (n k : ℕ) (state : State)
      → Within (n + 1) k state (attempt world options key state).1
  unfolding attempt
  one_try key n k state = (omega arith, omega arith)

  retrying-Within :
      (method key : Text) (left : ℕ) (state : State)
      → Within (allowed method left + 1) 0 state (retrying world options method key left state).1
  unfolding retrying
  retrying-Within method key zero state =
      let once = one_try key (allowed method 0) 0 state in
      let P = λ (out : Result ClientError ℕ × State). Within (allowed method 0 + 1) 0 state out.1 in
      conclude-elim P method (attempt world options key state)
        (refused world options (attempt world options key state)) once (λ s e f. once) (λ s. once)
        (λ safe. refused-elim P (attempt world options key state) once (λ s. once))
  retrying-Within method key (suc left) state =
      let once = one_try key (allowed method (suc left)) 0 state in
      let tried = (attempt world options key state).1 in
      let P = λ (out : Result ClientError ℕ × State).
        Within (allowed method (suc left) + 1) 0 state out.1 in
      conclude-elim P method (attempt world options key state)
        (retrying world options method key left tried) once (λ s e f. once) (λ s. once)
        (λ safe.
          Within-trans state tried (retrying world options method key left tried).1 1 0
            (allowed method left + 1) 0 (allowed method (suc left) + 1) 0 (one_try key 0 0 state)
            (retrying-Within method key left tried)
            (omega (arith, allowed_safe method left safe, allowed_safe method (suc left) safe))
            (omega arith))

  -- After a refusal: a new key and the retries that are left.
  reauthenticated-Within :
      (method : Text) (left : ℕ) (before : State) (answer : Result ClientError Text × State)
      → Within 0 1 before answer.1
      → Within
          (allowed method left + 1)
          1
          before
          (reauthenticated world options method left answer).1
  unfolding reauthenticated
  reauthenticated-Within method left before (err e, state) h =
      (omega (arith, h.0), omega (arith, h.1))
  reauthenticated-Within method left before (ok key, state) h =
      Within-trans before state (retrying world options method key left state).1 0 1
        (allowed method left + 1) 0 (allowed method left + 1) 1 h
        (retrying-Within method key left state) (omega arith) (omega arith)

  renewed-Within :
      (key : Text) (state : State)
      → Within 0 1 state (get_api_key world options (invalidate key state)).1
  renewed-Within key state =
      subst
        (λ sent.
          (attempts (get_api_key world options (invalidate key state)).1.sent ≤ attempts sent + 0)
          × (refreshes (get_api_key world options (invalidate key state)).1.sent
              ≤ refreshes sent + 1))
        (invalidate-sent key state) (get_api_key-Within (invalidate key state))

  refused_once :
      (method key : Text) (left : ℕ) (state : State)
      → Within
          (allowed method left + 2)
          1
          state
          (reauthenticated world options method left
            (get_api_key world options (invalidate key (attempt world options key state).1))).1
  refused_once method key left state =
      let tried = (attempt world options key state).1 in
      Within-trans state tried
        (reauthenticated world options method left
          (get_api_key world options (invalidate key tried))).1
        1 0 (allowed method left + 1) 1 (allowed method left + 2) 1 (one_try key 0 0 state)
        (reauthenticated-Within method left tried (get_api_key world options (invalidate key tried))
          (renewed-Within key tried))
        (omega arith) (omega arith)

  requesting-Within :
      (method key : Text) (left : ℕ) (state : State)
      → Within (allowed method left + 2) 1 state (requesting world options method key left state).1
  unfolding requesting
  requesting-Within method key zero state =
      let once : Within (allowed method 0 + 2) 1 state (attempt world options key state).1 =
        twice (allowed method 0) in
      let P = λ (out : Result ClientError ℕ × State). Within (allowed method 0 + 2) 1 state out.1 in
      elim (Bool-cases (is_unauthorized world options (attempt world options key state).0)) [
        | inl e ↦ rw e (refused_once method key 0 state)
        | inr e ↦ rw e (
            conclude-elim P method (attempt world options key state)
              (refused world options (attempt world options key state)) once (λ s k f. once)
              (λ s. once)
              (λ safe. refused-elim P (attempt world options key state) once (λ s. once)))
      ]
    where
      twice : (n : ℕ) → Within (n + 2) 1 state (attempt world options key state).1
      twice n = let (a, b) = one_try key n 0 state in (omega (arith, a), omega (arith, b))
  requesting-Within method key (suc left) state =
      let tried = (attempt world options key state).1 in
      let once : Within (allowed method (suc left) + 2) 1 state tried =
        twice (allowed method (suc left)) in
      let P = λ (out : Result ClientError ℕ × State).
        Within (allowed method (suc left) + 2) 1 state out.1 in
      let later = requesting-Within method key left tried in
      elim (Bool-cases (is_unauthorized world options (attempt world options key state).0)) [
        | inl e ↦ rw e (refused_once method key (suc left) state)
        | inr e ↦ rw e (
            conclude-elim P method (attempt world options key state)
              (requesting world options method key left tried) once (λ s k f. once) (λ s. once)
              (λ safe.
                Within-trans state tried (requesting world options method key left tried).1 1 0
                  (allowed method left + 2) 1 (allowed method (suc left) + 2) 1
                  (one_try key 0 0 state) later
                  (omega
                    (arith, allowed_safe method left safe, allowed_safe method (suc left) safe))
                  (omega arith)))
      ]
    where
      twice : (n : ℕ) → Within (n + 2) 1 state (attempt world options key state).1
      twice n = let (a, b) = one_try key n 0 state in (omega (arith, a), omega (arith, b))

  -- Whatever the provider answers, a request ends. It sends at most two attempts more than the retries
  -- that are allowed, at most two for a method that is not safe to repeat, and asks for a key at most twice.
  pub request-Within :
      (method : Text) (state : State)
      → Within
          (allowed method options.max_retries + 2)
          2
          state
          (request world options method state).1
  unfolding request
  request-Within method state =
      answered (get_api_key world options state) (get_api_key-Within state)
    where
      answered :
          (answer : Result ClientError Text × State)
          → Within 0 1 state answer.1
          → Within
              (allowed method options.max_retries + 2)
              2
              state
              (with_key world options method answer).1
      answered (err e, after) h = (omega (arith, h.0), omega (arith, h.1))
      answered (ok key, after) h =
          Within-trans state after (requesting world options method key options.max_retries after).1
            0 1 (allowed method options.max_retries + 2) 1 (allowed method options.max_retries + 2)
            2 h (requesting-Within method key options.max_retries after) (omega arith) (omega arith)
