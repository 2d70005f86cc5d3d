-- ===== src/Detection/RefundPairs.antt =====
-- When a transaction is the refund of a purchase.
use cash_count.Base.{
  ℕ, ◌-◌, ◌≤◌, ◌≡◌, refl, sym, ap, Bool, ◌&&◌, ◌||◌, Option, none, some, leb, ◌⊎◌, ◌≢◌, length,
}
use cash_count.Base.Deciding.{
  Decides, Decides-and, Decides-iff, Decides-or, Decides-leb, Decides-text_eq,
}
use cash_count.Base.Results.{ok}
use cash_count.Base.Text.{Text, text_eq}
use cash_count.Calendar.Shift.{day_of}
use cash_count.Policy.Types.{inflow, outflow}
use cash_count.Detection.Facts.{DetectionFacts, refund_tokens}
use cash_count.Detection.Detect.{same_merchant, refund_reference, refund_candidate}
use cash_count.Detection.Amounts.{units, IsFacts, IsWithin}
use cash_count.Detection.Decision.{HasToken}
use cash_count.Detection.Transfers.{date_ordinal-day_of}

-- Money that came in with a word of a refund.
abbrev pub IsRefund : DetectionFacts → Type 0
IsRefund t = (t.direction ≡ inflow) × HasToken refund_tokens t.description_normalized

-- The same merchant, or the other words of the refund are the text of the purchase.
abbrev pub IsReferred : DetectionFacts → DetectionFacts → Type 0
IsReferred t c =
    ((m : Text) × (t.merchant_id ≡ some m) × (c.merchant_id ≡ some m))
    ⊎ (3 ≤ length (refund_reference t.description_normalized))
      × (refund_reference t.description_normalized ≡ c.description_normalized)

abbrev pub days_after_purchase : DetectionFacts → DetectionFacts → ℕ
days_after_purchase t c = day_of t.transaction_local_date - day_of c.transaction_local_date

-- A refund and its purchase.
abbrev pub RefundPair : Text → DetectionFacts → DetectionFacts → Type 0
RefundPair tolerance t c =
    IsRefund t
    × (c.id ≢ t.id)
    × (c.account_id ≡ t.account_id)
    × (c.direction ≡ outflow)
    × (day_of c.transaction_local_date ≤ day_of t.transaction_local_date)
    × (days_after_purchase t c ≤ 120)
    × (units t.amount_signed ≤ units c.amount_signed)
    × IsReferred t c
    × IsWithin tolerance t c

pub same_merchant-Decides :
    (x y : Option Text) → Decides ((m : Text) × (x ≡ some m) × (y ≡ some m)) (same_merchant x y)
unfolding same_merchant
same_merchant-Decides none y = Decides.fails (λ (m, e, f). cc)
same_merchant-Decides (some m) none = Decides.fails (λ (n, e, f). cc)
same_merchant-Decides (some m) (some n) =
    Decides-iff (λ e. (m, refl, ap some (sym e))) (λ (k, e, f). cc) (Decides-text_eq m n)

abbrev pub referred : DetectionFacts → DetectionFacts → Bool
referred t c =
    same_merchant t.merchant_id c.merchant_id
    || (leb 3 (length (refund_reference t.description_normalized))
        && text_eq (refund_reference t.description_normalized) c.description_normalized)

pub referred-Decides : (t c : DetectionFacts) → Decides (IsReferred t c) (referred t c)
referred-Decides t c = Decides-or _ _ (same_merchant-Decides t.merchant_id c.merchant_id) (
    Decides-and _ _ (Decides-leb 3 (length (refund_reference t.description_normalized)))
      (λ _. Decides-text_eq (refund_reference t.description_normalized) c.description_normalized))

pub refund_candidate_lem :
    (t : DetectionFacts)
    → IsFacts t
    → (c : DetectionFacts) → IsFacts c
    → refund_candidate t c
      ≡ ok (record { candidate_id = c.id; date_distance_days = days_after_purchase t c })
unfolding refund_candidate
refund_candidate_lem t h c k =
    rw
      (
        date_ordinal-day_of t.transaction_local_date h.0,
        date_ordinal-day_of c.transaction_local_date k.0,
      )
      refl
