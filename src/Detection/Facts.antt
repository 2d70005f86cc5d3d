-- ===== src/Detection/Facts.antt =====
-- The facts that the detectors of packages/domain/src/financial-role-detectors.ts read, the tokens of
-- a description, the distance of two dates and the tolerance of two amounts.
use cash_count.Base.{
  ℕ, ◌+◌, ◌-◌, Bool, false, not, ◌&&◌, ◌||◌, Option, List, [], ◌∷◌, ◌++◌, ◌==◌, if◌then◌else◌,
  exists,
}
use cash_count.Base.Int.{ℤ, pos, ltb_ℤ}
use cash_count.Base.Results.{Result, ok, ◌>>=◌, ◌>>◌, guard, map_err}
use cash_count.Base.Text.{Text, text, text_eq}
use cash_count.Calendar.Text.{DateError, parse_bank_date}
use cash_count.Calendar.Shift.{day_of}
use cash_count.Decimal.Money.{
  Decimals, Money, MoneyError, money_from, money_abs, money_subtract, money_compare,
  money_is_negative,
}
use cash_count.Policy.Types.{AccountType, Direction, is_inflow, is_outflow}

pub record DetectionFacts : Type 0 where
  pub account_id : Text
  pub account_type : AccountType
  pub amount_signed : Text
  pub currency : Text
  pub description_normalized : Text
  pub direction : Direction
  pub id : Text
  pub merchant_id : Option Text
  pub transaction_local_date : Text

pub record Candidate : Type 0 where
  pub candidate_id : Text
  pub date_distance_days : ℕ

pub data Status : Type 0 where
  auto_confirmed needs_review no_match : Status

pub record PairDetection : Type 0 where
  pub candidates : List Candidate
  pub matched_transaction_id : Option Text
  pub status : Status

pub data DetectionError : Type 0 where
  money_error : MoneyError → DetectionError
  date_error : DateError → DetectionError
  negative_tolerance : DetectionError

-- `split(' ')` and the parts that are not empty: `part` is what stands before the next space.
unfoldable pub words : Text → Text → List Text
words part [] = if text_eq part [] then [] else part ∷ []
words part (c ∷ cs) =
    let rest = words (if c == b' ' then [] else part ++ (c ∷ [])) cs in
    if c == b' ' && not (text_eq part []) then part ∷ rest else rest

unfoldable pub tokens : Text → List Text
unfolding words
tokens t = words [] t

unfoldable pub contains_token : Text → List Text → Bool
unfolding tokens text_eq
contains_token t expected = exists (λ token. exists (text_eq token) expected) (tokens t)

abbrev pub transfer_tokens : List Text
transfer_tokens =
    text "doc"
    ∷ text "pix"
    ∷ text "ted"
    ∷ text "transfer"
    ∷ text "transferencia"
    ∷ text "transferência"
    ∷ []

abbrev pub refund_tokens : List Text
refund_tokens =
    text "devolucao" ∷ text "devolução" ∷ text "estorno" ∷ text "reembolso" ∷ text "refund" ∷ []

-- `dateOrdinal`: the days of a bank date, up to the origin, which no difference depends on.
unfoldable pub date_ordinal : Text → Result DetectionError ℕ
unfolding parse_bank_date day_of
date_ordinal t = do parsed ← map_err date_error (parse_bank_date t); ok (day_of parsed)

unfoldable pub date_distance : Text → Text → Result DetectionError ℕ
unfolding date_ordinal
date_distance left right = do a ← date_ordinal left; b ← date_ordinal right; ok ((a - b) + (b - a))

unfoldable pub opposite_directions : Direction → Direction → Bool
opposite_directions a b = (is_inflow a && is_outflow b) || (is_outflow a && is_inflow b)

module _ (d : Decimals) where
  abbrev pub money : Text → Text → Result DetectionError (Money d)
  money amount currency = map_err money_error (money_from d amount currency)

  -- `subtract`, `abs` and `compare` of two amounts against the tolerance.
  unfoldable pub compare_difference : Money d → Money d → Money d → Result DetectionError ℤ
  unfolding money_abs money_subtract money_compare
  compare_difference left right tolerance = do
    difference ← map_err money_error (money_subtract d left right)
    map_err money_error (money_compare d (money_abs d difference) tolerance)

  unfoldable pub amount_within_tolerance :
      DetectionFacts → DetectionFacts → Text → Result DetectionError Bool
  unfolding text_eq money_from money_abs money_is_negative compare_difference
  amount_within_tolerance left right tolerance_amount =
      if not (text_eq left.currency right.currency) then ok false else do
        left_amount ← money left.amount_signed left.currency
        right_amount ← money right.amount_signed right.currency
        tolerance ← money tolerance_amount left.currency
        guard (not (money_is_negative d tolerance)) negative_tolerance
        sign ← compare_difference (money_abs d left_amount) (money_abs d right_amount) tolerance
        ok (not (ltb_ℤ (pos 0) sign))
