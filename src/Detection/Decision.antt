-- ===== src/Detection/Decision.antt =====
-- What the answer of a detector says: the candidates that qualify, in their order, and a match only
-- when there is exactly one.
use mathlib.Core.List.{Perm}
use mathlib.Core.List.Perm
use cash_count.Base.{
  ℕ, ◌≤◌, ◌<◌, ◌≡◌, refl, sym, subst, true, false, none, some, List, [], ◌∷◌, arith, length, map,
  ◌⊎◌, exists, exists_witness, exists_of_Memᴰ,
}
use mathlib.Core.List.{Memᴰ}
use cash_count.Base.Deciding.{Decides, Decides-of}
use cash_count.Base.Sorting.{sort_by, Ordered, Sorted-Ordered, sort_by-perm, sort_by-Sorted}
use cash_count.Base.Text.{
  Text, text_eq, text_eq_refl, text_eq→eq, text_leb, text_leb_total, text_leb_trans,
}
use cash_count.Base.Throwing.{Selects}
use cash_count.Detection.Facts.{
  DetectionFacts, Candidate, PairDetection, auto_confirmed, needs_review, no_match, tokens,
  contains_token,
}
use cash_count.Detection.Detect.{candidate_order, decided, no_detection}

-- The nearer date first, and then the smaller id.
abbrev pub Before : Candidate → Candidate → Type 0
Before a b =
    (a.date_distance_days < b.date_distance_days)
    ⊎ (a.date_distance_days ≡ b.date_distance_days)
      × (text_leb a.candidate_id b.candidate_id ≡ true)

-- One candidate is the match, several need a review, and none is no match.
pub data IsDecided : PairDetection → Type 0 where
  one :
      (c : Candidate)
      → IsDecided (record {
        candidates = c ∷ [];
        matched_transaction_id = some c.candidate_id;
        status = auto_confirmed;
      })
  several :
      (cs : List Candidate)
      → 2 ≤ length cs
      → IsDecided (record { candidates = cs; matched_transaction_id = none; status = needs_review })
  none_found :
      IsDecided (record { candidates = []; matched_transaction_id = none; status = no_match })

-- The transactions with a property are the candidates, each with its distance in days.
abbrev pub IsDetection :
    (DetectionFacts → Type 0) → (DetectionFacts → ℕ) → List DetectionFacts → PairDetection → Type 0
IsDetection P days possible r =
    (matches : List DetectionFacts) × Selects P possible matches
    × Perm r.candidates
        (map (λ c. record { candidate_id = c.id; date_distance_days = days c }) matches)
    × Ordered Before r.candidates
    × IsDecided r

candidate_order_total : (a b : Candidate) → candidate_order a b ≡ false → candidate_order b a ≡ true
unfolding candidate_order
candidate_order_total a b h = ground (arith, text_leb_total a.candidate_id b.candidate_id)

candidate_order_trans :
    (a b c : Candidate)
    → candidate_order a b ≡ true
    → candidate_order b c ≡ true
    → candidate_order a c ≡ true
unfolding candidate_order
candidate_order_trans a b c h k =
    ground (arith, text_leb_trans a.candidate_id b.candidate_id c.candidate_id)

candidate_order-Before : (a b : Candidate) → candidate_order a b ≡ true → Before a b
unfolding candidate_order
candidate_order-Before a b h = ground arith

candidates-decided : (cs : List Candidate) → (decided cs).candidates ≡ cs
unfolding decided
candidates-decided [] = refl
candidates-decided (c ∷ []) = refl
candidates-decided (c ∷ e ∷ rest) = refl

decided-IsDecided : (cs : List Candidate) → IsDecided (decided cs)
unfolding decided
decided-IsDecided [] = none_found
decided-IsDecided (c ∷ []) = one c
decided-IsDecided (c ∷ e ∷ rest) = several (c ∷ e ∷ rest) (omega arith)

-- The answer over the candidates of the transactions that were selected.
pub decided-IsDetection :
    (P : DetectionFacts → Type 0) (days : DetectionFacts → ℕ)
    (possible matches : List DetectionFacts)
    → Selects P possible matches
    → IsDetection P days possible (
        decided (
          sort_by candidate_order
            (map (λ c. record { candidate_id = c.id; date_distance_days = days c }) matches)))
decided-IsDetection P days possible matches s =
    let cs : List Candidate =
      map (λ c. record { candidate_id = c.id; date_distance_days = days c }) matches in
    let same = candidates-decided (sort_by candidate_order cs) in
    (
      matches,
      s,
      subst (λ xs. Perm xs cs) (sym same) (sort_by-perm candidate_order cs),
      subst (Ordered Before) (sym same) (
          Sorted-Ordered candidate_order Before candidate_order-Before (sort_by candidate_order cs)
            (sort_by-Sorted candidate_order candidate_order_total candidate_order_trans cs)),
      decided-IsDecided (sort_by candidate_order cs),
    )

-- Nothing qualifies.
pub nothing-IsDetection :
    (P : DetectionFacts → Type 0) (days : DetectionFacts → ℕ) (possible : List DetectionFacts)
    → ((c : DetectionFacts) → ¬ P c)
    → IsDetection P days possible no_detection
nothing-IsDetection P days possible never = ([], skip_all possible, Perm.refl [], tt, none_found)
  where
    skip_all : (cs : List DetectionFacts) → Selects P cs []
    skip_all [] = Selects.nothing
    skip_all (c ∷ cs) = Selects.skips (never c) (skip_all cs)

-- A word of the description is one of the expected ones.
abbrev pub HasToken : List Text → Text → Type 0
HasToken expected t = (w : Text) × Memᴰ w (tokens t) × Memᴰ w expected

pub contains_token-Decides :
    (t : Text) (expected : List Text) → Decides (HasToken expected t) (contains_token t expected)
unfolding contains_token
contains_token-Decides t expected =
    Decides-of (contains_token t expected)
      (λ h.
        let (w, among, k) =
          exists_witness (λ token. exists (text_eq token) expected) (tokens t) h in
        let (v, listed, same) = exists_witness (text_eq w) expected k in
        (w, among, subst (λ x. Memᴰ x expected) (sym (text_eq→eq w v same)) listed))
      (λ (w, among, listed).
        exists_of_Memᴰ (λ token. exists (text_eq token) expected) (tokens t) among
          (exists_of_Memᴰ (text_eq w) expected listed (text_eq_refl w)))
