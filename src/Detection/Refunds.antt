-- ===== src/Detection/Refunds.antt =====
-- What `detectRefund` finds.
use mathlib.Core.Path.{ap₂}
use cash_count.Base.{
  ℕ, ◌-◌, ◌≤◌, ◌≡◌, refl, sym, ap, ◌∙◌, subst, Bool, true, false, not, ◌&&◌, ◌||◌, List, arith, leb,
  ltb, All, All-map, inl, inr, if◌then◌else◌, Bool-cases, ◌≢◌,
}
use cash_count.Base.Deciding.{
  Decides, Decides-and, Decides-iff, Decides-not, Decides-of, Decides-leb, Decides-text_eq,
  Decides-true, Decides-false,
}
use cash_count.Base.Int.{pos, ltb_ℤ}
use cash_count.Base.Results.{Result, ok}
use cash_count.Base.Text.{Text, text_eq, text_eq_refl}
use cash_count.Base.Throwing.{filter_ok-Selects, map_ok-map, All-Selects}
use cash_count.Calendar.Shift.{day_of}
use cash_count.Decimal.Money.{Decimals, DecimalLaws, Money, money_abs, magnitude}
use cash_count.Policy.Types.{outflow, is_inflow, is_outflow}
use cash_count.Detection.Facts.{
  DetectionFacts, PairDetection, DetectionError, refund_tokens, contains_token,
}
use cash_count.Detection.Detect.{
  refund_reference, is_refunded, is_purchase, refund_candidate, detect_refund,
}
use cash_count.Detection.Amounts.{
  units, IsFacts, IsTolerance, IsWithin, amount_within_tolerance-Decides, money_reads,
  money_compare_sizes, size,
}
use cash_count.Detection.Decision.{
  contains_token-Decides, IsDetection, decided-IsDetection, nothing-IsDetection,
}
use cash_count.Detection.Transfers.{is_inflow-inflow, is_outflow-outflow, date_ordinal-day_of}
use cash_count.Detection.RefundPairs.{
  IsRefund, IsReferred, days_after_purchase, RefundPair, referred, referred-Decides,
  refund_candidate_lem,
}

module _ (d : Decimals) (laws : DecimalLaws d) where
  amount_tests :
      (first second third : Bool)
      → ◌≡◌ {A = Result DetectionError Bool}
          (if first && second then ok third else ok false)
          (ok (first && second && third))
  amount_tests true true third = refl
  amount_tests true false third = refl
  amount_tests false second third = refl

  -- The tests after those of the date, for a purchase in the currency of the refund.
  is_refunded-Decides :
      (tolerance : Text) (t c : DetectionFacts) (x : Money d)
      → x.currency ≡ t.currency
      → magnitude (laws.micros x.amount) ≡ units t.amount_signed
      → t.currency ≡ c.currency
      → IsTolerance tolerance
      → IsFacts t
      → IsFacts c
      → (b : Bool) × (is_refunded d t
            (money_abs d x)
            (refund_reference t.description_normalized)
            tolerance
            c
          ≡ ok b)
        × Decides
            ((units t.amount_signed ≤ units c.amount_signed)
              × IsReferred t c
              × IsWithin tolerance t c)
            b
  unfolding is_refunded
  is_refunded-Decides tolerance t c x code value same form h k =
      let (b, within, means) = amount_within_tolerance-Decides d laws tolerance t c form h k in
      let (y, my, cy, uy, sy) = money_reads d laws c.amount_signed c.currency k.1 k.2 in
      let (s, compared, sign) =
        money_compare_sizes d laws x y (rw (code, cy, same) (text_eq_refl c.currency)) in
      (
        not (ltb_ℤ (pos 0) s) && referred t c && b,
        rw (within, my, compared) (amount_tests (not (ltb_ℤ (pos 0) s)) (referred t c) b),
        Decides-iff (λ ((p, q), r). (p, q, r)) (λ (p, q, r). ((p, q), r))
            (Decides-and _ _
              (Decides-and _ _
                (subst (Decides _) (sym (sign ∙ ap₂ leb value (sym (ap size uy))))
                  (Decides-leb (units t.amount_signed) (units c.amount_signed)))
                (λ _. referred-Decides t c))
              (λ _. means)),
      )

  date_tests :
      (a b : ℕ) (last : Bool)
      → ◌≡◌ {A = Result DetectionError Bool}
          (if ltb a b || ltb 120 (a - b) then ok false else ok last)
          (ok (leb b a && leb (a - b) 120 && last))
  date_tests a b last = grind arith

  abbrev excluded : DetectionFacts → DetectionFacts → Bool
  excluded t c =
      text_eq c.id t.id
      || not (text_eq c.account_id t.account_id)
      || not (is_outflow c.direction)
      || not (text_eq c.currency t.currency)

  abbrev Included : DetectionFacts → DetectionFacts → Type 0
  Included t c =
      (c.id ≢ t.id)
      × (c.account_id ≡ t.account_id)
      × (c.direction ≡ outflow)
      × (c.currency ≡ t.currency)

  none_of : (p q r s : Bool) → not (p || not q || not r || not s) ≡ (not p && q && r && s)
  none_of p q r s = ground arith

  excluded-Decides : (t c : DetectionFacts) → Decides (Included t c) (not (excluded t c))
  excluded-Decides t c =
      subst (Decides _)
        (sym (
          none_of (text_eq c.id t.id) (text_eq c.account_id t.account_id) (is_outflow c.direction)
            (text_eq c.currency t.currency)))
        (Decides-iff (λ (((p, q), r), s). (p, q, r, s)) (λ (p, q, r, s). (((p, q), r), s))
          (Decides-and _ _
            (Decides-and _ _
              (Decides-and _ _ (Decides-not (Decides-text_eq c.id t.id))
                (λ _. Decides-text_eq c.account_id t.account_id))
              (λ _.
                Decides-of (is_outflow c.direction) (is_outflow-outflow c.direction)
                  (λ e. rw e refl)))
            (λ _. Decides-text_eq c.currency t.currency)))

  is_purchase-Decides :
      (tolerance : Text) (t c : DetectionFacts) (x : Money d)
      → IsRefund t
      → x.currency ≡ t.currency
      → magnitude (laws.micros x.amount) ≡ units t.amount_signed
      → IsTolerance tolerance
      → IsFacts t
      → IsFacts c
      → (b : Bool) × (is_purchase d t
            (money_abs d x)
            (refund_reference t.description_normalized)
            tolerance
            c
          ≡ ok b)
        × Decides (RefundPair tolerance t c) b
  unfolding is_purchase
  is_purchase-Decides tolerance t c x refund code value form h k =
      elim (Bool-cases (excluded t c)) [
        | inl e ↦ (
          false,
          rw e refl,
          Decides.fails (λ (_, i, j, k, _, _, _, _, m).
              Decides-false _ (rw e refl) (excluded-Decides t c) (i, j, k, sym m.0)),
        )
        | inr e ↦
            let included : Included t c = Decides-true _ (rw e refl) (excluded-Decides t c) in
            let (b, rest, means) =
              is_refunded-Decides tolerance t c x code value (sym included.3) form h k in
            let now = day_of t.transaction_local_date in
            let bought = day_of c.transaction_local_date in
            (
              leb bought now && leb (now - bought) 120 && b,
              rw
                  (
                    e,
                    rest,
                    date_ordinal-day_of t.transaction_local_date h.0,
                    date_ordinal-day_of c.transaction_local_date k.0,
                  )
                  (date_tests now bought b),
              Decides-iff
                  (λ ((p, q), (r, s, w)).
                    (refund, included.0, included.1, included.2, p, q, r, s, w))
                  (λ (_, _, _, _, p, q, r, s, w). ((p, q), (r, s, w)))
                  (Decides-and _ _
                    (Decides-and _ _ (Decides-leb bought now) (λ _. Decides-leb (now - bought) 120))
                    (λ _. means)),
            )
      ]

  refund_test : DetectionFacts → Bool
  refund_test t = is_inflow t.direction && contains_token t.description_normalized refund_tokens

  refund_test-Decides : (t : DetectionFacts) → Decides (IsRefund t) (refund_test t)
  unfolding refund_test
  refund_test-Decides t =
      Decides-and _ _
        (Decides-of (is_inflow t.direction) (is_inflow-inflow t.direction) (λ e. rw e refl))
        (λ _. contains_token-Decides t.description_normalized refund_tokens)

  refund_test_either :
      (t : DetectionFacts)
      → (not (is_inflow t.direction) || not (contains_token t.description_normalized refund_tokens))
        ≡ not (refund_test t)
  unfolding refund_test
  refund_test_either t = ground arith

  -- With facts and a tolerance in their form the detector returns, and its candidates are the
  -- purchases that the refund can take back.
  pub detect_refund-IsDetection :
      (t : DetectionFacts) (possible : List DetectionFacts) (tolerance : Text)
      → IsFacts t
      → All IsFacts possible
      → IsTolerance tolerance
      → (r : PairDetection) × (detect_refund d t possible tolerance ≡ ok r)
        × IsDetection (RefundPair tolerance t) (days_after_purchase t) possible r
  unfolding detect_refund
  detect_refund-IsDetection t possible tolerance h all form = elim (Bool-cases (refund_test t)) [
    | inl e ↦
        let refund = Decides-true _ e (refund_test-Decides t) in
        let (x, mx, code, ux, _) = money_reads d laws t.amount_signed t.currency h.1 h.2 in
        let reference = refund_reference t.description_normalized in
        let (matches, found, selected) =
          filter_ok-Selects (RefundPair tolerance t)
            (is_purchase d t (money_abs d x) reference tolerance) possible
            (All-map
              (λ c. is_purchase-Decides tolerance t c x refund code (sym (ap size ux)) form h)
              possible all) in
        let mapped =
          map_ok-map (refund_candidate t)
            (λ c. record { candidate_id = c.id; date_distance_days = days_after_purchase t c })
            matches (All-Selects _ _ selected (All-map (refund_candidate_lem t h) possible all)) in
        (
          _,
          rw (refund_test_either t ∙ ap not e, mx, found, mapped) refl,
          decided-IsDetection (RefundPair tolerance t) (days_after_purchase t) possible matches
              selected,
        )
    | inr e ↦ (
      _,
      rw (refund_test_either t ∙ ap not e) refl,
      nothing-IsDetection (RefundPair tolerance t) (days_after_purchase t) possible
          (λ c pair. Decides-false _ e (refund_test-Decides t) pair.0),
    )
  ]
