-- ===== src/Detection/Transfers.antt =====
-- What `detectInternalTransfer` finds.
use cash_count.Base.{
  ℕ, ◌≤◌, ◌≡◌, refl, Bool, true, false, not, ◌&&◌, ◌||◌, List, arith, leb, All, All-map, ◌⊎◌, inl,
  inr, if◌then◌else◌, Bool-cases, ◌≢◌,
}
use cash_count.Base.Deciding.{
  Decides, Decides-and, Decides-iff, Decides-not, Decides-of, Decides-leb, Decides-text_eq,
  Decides-true, Decides-false,
}
use cash_count.Base.Results.{Result, ok}
use cash_count.Base.Text.{Text, text_eq}
use cash_count.Base.Throwing.{filter_ok-Selects, map_ok-map, All-Selects}
use cash_count.Calendar.Shift.{day_of}
use cash_count.Calendar.Arithmetic.{IsBankText}
use cash_count.Decimal.Money.{Decimals, DecimalLaws}
use cash_count.Policy.Types.{
  Direction, inflow, outflow, neutral, unknown_direction, is_deposit, is_inflow, is_outflow,
}
use cash_count.Detection.Facts.{
  DetectionFacts, PairDetection, DetectionError, transfer_tokens, contains_token, date_ordinal,
  date_distance, opposite_directions,
}
use cash_count.Detection.Detect.{is_counterpart, transfer_candidate, detect_internal_transfer}
use cash_count.Detection.Amounts.{
  distance, IsFacts, IsTolerance, IsWithin, amount_within_tolerance-Decides,
}
use cash_count.Detection.Decision.{
  HasToken, contains_token-Decides, IsDetection, decided-IsDetection, nothing-IsDetection,
}

-- A transfer between two deposit accounts, by its words.
abbrev pub IsTransfer : DetectionFacts → Type 0
IsTransfer t =
    (is_deposit t.account_type ≡ true) × HasToken transfer_tokens t.description_normalized

abbrev pub Opposite : Direction → Direction → Type 0
Opposite a b = (a ≡ inflow) × (b ≡ outflow) ⊎ (a ≡ outflow) × (b ≡ inflow)

-- The days between two bank dates.
abbrev pub days_apart : DetectionFacts → DetectionFacts → ℕ
days_apart t c = distance (day_of t.transaction_local_date) (day_of c.transaction_local_date)

-- The two sides of one transfer.
abbrev pub TransferPair : Text → DetectionFacts → DetectionFacts → Type 0
TransferPair tolerance t c =
    IsTransfer t
    × IsTransfer c
    × (c.id ≢ t.id)
    × (c.account_id ≢ t.account_id)
    × Opposite t.direction c.direction
    × (days_apart t c ≤ 2)
    × IsWithin tolerance t c

pub is_inflow-inflow : (x : Direction) → is_inflow x ≡ true → x ≡ inflow
is_inflow-inflow inflow h = refl
is_inflow-inflow outflow h = cc
is_inflow-inflow neutral h = cc
is_inflow-inflow unknown_direction h = cc

pub is_outflow-outflow : (x : Direction) → is_outflow x ≡ true → x ≡ outflow
is_outflow-outflow outflow h = refl
is_outflow-outflow inflow h = cc
is_outflow-outflow neutral h = cc
is_outflow-outflow unknown_direction h = cc

opposite_directions-Decides : (a b : Direction) → Decides (Opposite a b) (opposite_directions a b)
unfolding opposite_directions
opposite_directions-Decides a b = Decides-of (opposite_directions a b) from_test to_test
  where
    from_test : opposite_directions a b ≡ true → Opposite a b
    from_test h =
        ground (
          arith,
          is_inflow-inflow a,
          is_outflow-outflow b,
          is_outflow-outflow a,
          is_inflow-inflow b,
        )

    to_test : Opposite a b → opposite_directions a b ≡ true
    to_test (inl (p, q)) = rw (p, q) refl
    to_test (inr (p, q)) = rw (p, q) refl

pub date_ordinal-day_of : (t : Text) → IsBankText t → date_ordinal t ≡ ok (day_of t)
unfolding date_ordinal
date_ordinal-day_of t h = rw h refl

date_distance-days :
    (t c : DetectionFacts)
    → IsFacts t
    → IsFacts c
    → date_distance t.transaction_local_date c.transaction_local_date ≡ ok (days_apart t c)
unfolding date_distance
date_distance-days t c h k =
    rw
      (
        date_ordinal-day_of t.transaction_local_date h.0,
        date_ordinal-day_of c.transaction_local_date k.0,
      )
      refl

transfer_candidate_lem :
    (t : DetectionFacts)
    → IsFacts t
    → (c : DetectionFacts) → IsFacts c
    → transfer_candidate t c
      ≡ ok (record { candidate_id = c.id; date_distance_days = days_apart t c })
unfolding transfer_candidate
transfer_candidate_lem t h c k = rw (date_distance-days t c h k) refl

module _ (d : Decimals) (laws : DecimalLaws d) where
  two_tests :
      (first second third : Bool)
      → ◌≡◌ {A = Result DetectionError Bool}
          (if first then (if second then ok third else ok false) else ok false)
          (ok (first && (second && third)))
  two_tests true true third = refl
  two_tests true false third = refl
  two_tests false second third = refl

  is_counterpart-Decides :
      (tolerance : Text) (t c : DetectionFacts)
      → IsTransfer t
      → IsTolerance tolerance
      → IsFacts t
      → IsFacts c
      → (b : Bool) × (is_counterpart d t tolerance c ≡ ok b)
        × Decides (TransferPair tolerance t c) b
  unfolding is_counterpart
  is_counterpart-Decides tolerance t c transfer form h k =
      let (b, within, means) = amount_within_tolerance-Decides d laws tolerance t c form h k in
      (
        not (text_eq c.id t.id)
            && not (text_eq c.account_id t.account_id)
            && is_deposit c.account_type
            && contains_token c.description_normalized transfer_tokens
            && opposite_directions t.direction c.direction
            && (leb (days_apart t c) 2 && b),
        rw (date_distance-days t c h k, within) (two_tests _ _ b),
        Decides-iff (λ (((((a, b), e), f), g), (l, m)). (transfer, (e, f), a, b, g, l, m))
            (λ (_, (e, f), a, b, g, l, m). (((((a, b), e), f), g), (l, m)))
            (Decides-and _ _
              (Decides-and _ _
                (Decides-and _ _
                  (Decides-and _ _
                    (Decides-and _ _ (Decides-not (Decides-text_eq c.id t.id))
                      (λ _. Decides-not (Decides-text_eq c.account_id t.account_id)))
                    (λ _. Decides-of (is_deposit c.account_type) (λ e. e) (λ e. e)))
                  (λ _. contains_token-Decides c.description_normalized transfer_tokens))
                (λ _. opposite_directions-Decides t.direction c.direction))
              (λ _. Decides-and _ _ (Decides-leb (days_apart t c) 2) (λ _. means))),
      )

  -- With facts and a tolerance in their form the detector returns, and its candidates are the
  -- transactions that can be the other side of the transfer.
  pub detect_internal_transfer-IsDetection :
      (t : DetectionFacts) (possible : List DetectionFacts) (tolerance : Text)
      → IsFacts t
      → All IsFacts possible
      → IsTolerance tolerance
      → (r : PairDetection) × (detect_internal_transfer d t possible tolerance ≡ ok r)
        × IsDetection (TransferPair tolerance t) (days_apart t) possible r
  unfolding detect_internal_transfer
  detect_internal_transfer-IsDetection t possible tolerance h all form =
      elim (Bool-cases
        (is_deposit t.account_type && contains_token t.description_normalized transfer_tokens)) [
          | inl e ↦
              let (matches, found, selected) =
                filter_ok-Selects (TransferPair tolerance t) (is_counterpart d t tolerance) possible
                  (All-map
                    (λ c. is_counterpart-Decides tolerance t c (Decides-true _ e decides) form h)
                    possible all) in
              let mapped =
                map_ok-map (transfer_candidate t)
                  (λ c. record { candidate_id = c.id; date_distance_days = days_apart t c }) matches
                  (All-Selects _ _ selected (All-map (transfer_candidate_lem t h) possible all)) in
              (
                _,
                rw (both e, found, mapped) refl,
                decided-IsDetection (TransferPair tolerance t) (days_apart t) possible matches
                    selected,
              )
          | inr e ↦ (
            _,
            rw (both e) refl,
            nothing-IsDetection (TransferPair tolerance t) (days_apart t) possible
                (λ c pair. Decides-false _ e decides pair.0),
          )
        ]
    where
      decides :
          Decides
            (IsTransfer t)
            (is_deposit t.account_type && contains_token t.description_normalized transfer_tokens)
      decides =
          Decides-and _ _ (Decides-of (is_deposit t.account_type) (λ e. e) (λ e. e))
            (λ _. contains_token-Decides t.description_normalized transfer_tokens)

      both :
          {b : Bool}
          → (is_deposit t.account_type && contains_token t.description_normalized transfer_tokens)
            ≡ b
          → (not (is_deposit t.account_type)
              || not (contains_token t.description_normalized transfer_tokens))
            ≡ not b
      both e = ground arith
