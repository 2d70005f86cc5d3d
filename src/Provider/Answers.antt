-- ===== src/Provider/Answers.antt =====
-- Which answer a request returns.
use cash_count.Base.{ℕ, zero, suc, ◌≡◌, refl, true, Option, some, List, ◌∷◌, Bool-cases, inl, inr}
use cash_count.Base.Results.{Result, ok, err}
use cash_count.Base.Text.{Text}
use cash_count.Provider.Client.{
  ClientError, Sent, tries, State, World, ClientOptions, is_ok, invalidate, get_api_key, attempt,
  conclude, refused, is_unauthorized, retrying, reauthenticated, requesting, with_key, request,
}
use cash_count.Provider.Attempts.{conclude-elim, refused-elim}

module _ (world : World) (options : ClientOptions) where
  -- A request that returns has the successful answer to the last message that was sent.
  abbrev pub IsAnswer : Result ClientError ℕ × State → Type 0
  IsAnswer (err e, state) = Unit
  IsAnswer (ok s, state) =
      (is_ok s ≡ true)
      × ((key : Text) × (before : List Sent) × (state.sent ≡ tries key ∷ before)
          × (world.answers key before ≡ some s))

  concluded-IsAnswer :
      (method key : Text) (state : State) (rest : Result ClientError ℕ × State)
      → IsAnswer rest
      → IsAnswer (conclude world options method (attempt world options key state) rest)
  unfolding attempt
  concluded-IsAnswer method key state rest h =
      conclude-elim world options IsAnswer method (attempt world options key state) rest tt
        (λ s e f. (f, (key, state.sent, refl, e))) (λ s. tt) (λ safe. h)

  refused-IsAnswer : (tried : Option ℕ × State) → IsAnswer (refused world options tried)
  refused-IsAnswer tried = refused-elim world options IsAnswer tried tt (λ s. tt)

  retrying-IsAnswer :
      (method key : Text) (left : ℕ) (state : State)
      → IsAnswer (retrying world options method key left state)
  unfolding retrying
  retrying-IsAnswer method key zero state =
      concluded-IsAnswer method key state _ (refused-IsAnswer (attempt world options key state))
  retrying-IsAnswer method key (suc left) state =
      concluded-IsAnswer method key state _
        (retrying-IsAnswer method key left (attempt world options key state).1)

  reauthenticated-IsAnswer :
      (method : Text) (left : ℕ) (answer : Result ClientError Text × State)
      → IsAnswer (reauthenticated world options method left answer)
  unfolding reauthenticated
  reauthenticated-IsAnswer method left (err e, state) = tt
  reauthenticated-IsAnswer method left (ok key, state) = retrying-IsAnswer method key left state

  requesting-IsAnswer :
      (method key : Text) (left : ℕ) (state : State)
      → IsAnswer (requesting world options method key left state)
  unfolding requesting
  requesting-IsAnswer method key zero state =
      elim (Bool-cases (is_unauthorized world options (attempt world options key state).0)) [
        | inl e ↦ rw e (
            reauthenticated-IsAnswer method 0
              (get_api_key world options (invalidate key (attempt world options key state).1)))
        | inr e ↦ rw e (
            concluded-IsAnswer method key state _
              (refused-IsAnswer (attempt world options key state)))
      ]
  requesting-IsAnswer method key (suc left) state =
      let later = requesting-IsAnswer method key left (attempt world options key state).1 in
      elim (Bool-cases (is_unauthorized world options (attempt world options key state).0)) [
        | inl e ↦ rw e (
            reauthenticated-IsAnswer method (suc left)
              (get_api_key world options (invalidate key (attempt world options key state).1)))
        | inr e ↦ rw e (concluded-IsAnswer method key state _ later)
      ]

  with_key-IsAnswer :
      (method : Text) (answer : Result ClientError Text × State)
      → IsAnswer (with_key world options method answer)
  unfolding with_key
  with_key-IsAnswer method (err e, state) = tt
  with_key-IsAnswer method (ok key, state) =
      requesting-IsAnswer method key options.max_retries state

  -- Where a request returns, it returns the successful answer to the last message that was sent, never an
  -- earlier one that was retried.
  pub request-IsAnswer :
      (method : Text) (state : State) → IsAnswer (request world options method state)
  unfolding request
  request-IsAnswer method state = with_key-IsAnswer method (get_api_key world options state)
