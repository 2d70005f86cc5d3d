-- ===== src/Replacement/Score.antt =====
-- `scoreTransactionReplacement` of packages/domain/src/replacement-policy.ts. The similarity of two
-- descriptions is kept as a fraction; the score, a sum of floating-point numbers, is a parameter. The
-- numbers of installments are whole, as the tables hold them.
use cash_count.Base.{
  ℕ, ◌+◌, ◌-◌, Bool, true, false, not, Option, none, some, List, [], ◌∷◌, ◌++◌, ltb, ◌==◌,
  if◌then◌else◌, length, filter, exists,
}
use cash_count.Base.Results.{Result, ok, ◌>>=◌, map_err}
use cash_count.Base.Text.{Text, text_eq}
use cash_count.Calendar.Shift.{day_of}
use cash_count.Calendar.Text.{DateError, parse_bank_date}
use cash_count.Decimal.Money.{Decimals, MoneyError, parse_decimal_string, parse_currency_code}
use cash_count.Detection.Facts.{tokens}

pub record ReplacementFacts : Type 0 where
  pub account_id : Text
  pub amount_signed : Text
  pub bill_forecast_month : Option Text
  pub card_last_four : Option Text
  pub currency : Text
  pub description_normalized : Text
  pub installment_number : Option ℕ
  pub installment_total : Option ℕ
  pub local_date : Text
  pub payee_mcc : Option Text
  pub provider_bill_id : Option Text
  pub provider_type : Option Text

pub data Feature : Type 0 where
  account currency amount date installment_number installment_total : Feature
  bill_forecast_month provider_bill_id card_last_four payee_mcc : Feature

pub data ReplacementError : Type 0 where
  bad_money : MoneyError → ReplacementError
  bad_date : DateError → ReplacementError

-- A fraction, by its numerator and denominator.
abbrev pub Similarity : Type 0
Similarity = ℕ × ℕ

pub record ReplacementScore : Type 0 where
  pub date_distance_days : ℕ
  pub description_similarity : Similarity
  pub eligible : Bool
  pub incompatible_feature : Option Feature
  pub score : Text

-- The members of a `Set`.
unfoldable pub unique : List Text → List Text
unfolding text_eq
unique [] = []
unique (t ∷ ts) = let rest = unique ts in if exists (text_eq t) ts then rest else t ∷ rest

abbrev pub fraction : List Text → List Text → Similarity
fraction [] right = (0, 1)
fraction (l ∷ ls) [] = (0, 1)
fraction (l ∷ ls) (r ∷ rs) = (
  length (filter (λ token. exists (text_eq token) (r ∷ rs)) (unique (l ∷ ls))),
  length (unique ((l ∷ ls) ++ (r ∷ rs))),
)

unfoldable pub token_similarity : Text → Text → Similarity
unfolding text_eq tokens unique
token_similarity left right =
    if text_eq left right then (1, 1) else fraction (tokens left) (tokens right)

unfoldable pub conflicting_optional : {A : Type 0} → (A → A → Bool) → Option A → Option A → Bool
conflicting_optional same none right = false
conflicting_optional same (some l) none = false
conflicting_optional same (some l) (some r) = not (same l r)

-- `find` of the first feature that does not fit.
unfoldable pub first_incompatible : List (Feature × Bool) → Option Feature
first_incompatible [] = none
first_incompatible ((feature, conflicts) ∷ rest) =
    if conflicts then some feature else first_incompatible rest

-- The values that the code parses.
pub record Parsed : Type 0 where
  pub left_amount : Text
  pub right_amount : Text
  pub left_currency : Text
  pub right_currency : Text
  pub distance : ℕ

unfoldable pub comparisons : Parsed → ReplacementFacts → ReplacementFacts → List (Feature × Bool)
unfolding text_eq conflicting_optional
comparisons v p s =
    (account, not (text_eq p.account_id s.account_id))
    ∷ (currency, not (text_eq v.left_currency v.right_currency))
    ∷ (amount, not (text_eq v.left_amount v.right_amount))
    ∷ (date, ltb 3 v.distance)
    ∷ (
      installment_number,
      conflicting_optional (λ m n. m == n) p.installment_number s.installment_number,
    )
    ∷ (
      installment_total,
      conflicting_optional (λ m n. m == n) p.installment_total s.installment_total,
    )
    ∷ (
      bill_forecast_month,
      conflicting_optional text_eq p.bill_forecast_month s.bill_forecast_month,
    )
    ∷ (provider_bill_id, conflicting_optional text_eq p.provider_bill_id s.provider_bill_id)
    ∷ (card_last_four, conflicting_optional text_eq p.card_last_four s.card_last_four)
    ∷ (payee_mcc, conflicting_optional text_eq p.payee_mcc s.payee_mcc)
    ∷ []

-- What the score adds for the type that the provider gives.
unfoldable pub same_type : Option Text → Option Text → Bool
unfolding text_eq
same_type none right = true
same_type (some l) none = true
same_type (some l) (some r) = text_eq l r

module _ (d : Decimals) (score_text : ℕ → Similarity → Bool → Text) where
  unfoldable pub scored :
      Parsed → ReplacementFacts → ReplacementFacts → Option Feature → ReplacementScore
  unfolding token_similarity same_type
  scored v p s (some feature) = record {
    date_distance_days = v.distance;
    description_similarity = token_similarity p.description_normalized s.description_normalized;
    eligible = false;
    incompatible_feature = some feature;
    score = b'0' ∷ b'.' ∷ b'0' ∷ b'0' ∷ b'0' ∷ b'0' ∷ [];
  }
  scored v p s none =
      let similarity = token_similarity p.description_normalized s.description_normalized in
      record {
        date_distance_days = v.distance;
        description_similarity = similarity;
        eligible = true;
        incompatible_feature = none;
        score = score_text v.distance similarity (same_type p.provider_type s.provider_type);
      }

  unfoldable pub parse_facts : ReplacementFacts → ReplacementFacts → Result ReplacementError Parsed
  unfolding parse_decimal_string parse_currency_code parse_bank_date day_of
  parse_facts p s = do
    left_amount ← map_err bad_money (parse_decimal_string d p.amount_signed)
    right_amount ← map_err bad_money (parse_decimal_string d s.amount_signed)
    left_currency ← map_err bad_money (parse_currency_code p.currency)
    right_currency ← map_err bad_money (parse_currency_code s.currency)
    left_date ← map_err bad_date (parse_bank_date p.local_date)
    right_date ← map_err bad_date (parse_bank_date s.local_date)
    let left = day_of left_date
    let right = day_of right_date
    ok (record {
      left_amount = left_amount;
      right_amount = right_amount;
      left_currency = left_currency;
      right_currency = right_currency;
      distance = (left - right) + (right - left);
    })

  unfoldable pub score_transaction_replacement :
      ReplacementFacts → ReplacementFacts → Result ReplacementError ReplacementScore
  unfolding parse_facts scored comparisons first_incompatible
  score_transaction_replacement p s = do
    v ← parse_facts p s
    ok (scored v p s (first_incompatible (comparisons v p s)))
