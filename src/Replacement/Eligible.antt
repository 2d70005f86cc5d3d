-- ===== src/Replacement/Eligible.antt =====
-- Which pairs of transactions are eligible.
use cash_count.Base.{
  ℕ, ◌+◌, ◌-◌, ◌≤◌, ◌≡◌, refl, sym, subst, ap, ◌∙◌, Bool, true, false, not, ◌&&◌, Option, none,
  some, List, [], ◌∷◌, arith, ltb, ◌==◌, Bool-cases, inl, inr, is_some,
}
use cash_count.Base.Deciding.{Decides, Decides-and, Decides-iff, Decides-of, Decides-text_eq}
use cash_count.Base.Results.{ok, map_err, >>=-eq-ok, map_err-eq-ok, ok-injective}
use cash_count.Base.Text.{Text, text_eq}
use cash_count.Calendar.Shift.{day_of}
use cash_count.Calendar.Text.{parse_bank_date}
use cash_count.Calendar.RoundTrip.{parse_bank_date-IsBankDate}
use cash_count.Decimal.Money.{Decimals, parse_decimal_string, parse_currency_code}
use cash_count.Decimal.Pattern.{is_decimal, is_currency_code}
use cash_count.Replacement.Score.{
  ReplacementFacts, Feature, bad_money, bad_date, ReplacementScore, Similarity,
  conflicting_optional, first_incompatible, Parsed, comparisons, scored, parse_facts,
  score_transaction_replacement,
}

-- Two optional values of which one is missing, or that are the same.
abbrev pub Agrees : {A : Type 0} → Option A → Option A → Type 0
Agrees none right = Unit
Agrees (some l) none = Unit
Agrees (some l) (some r) = l ≡ r

abbrev fits : List (Feature × Bool) → Bool
fits [] = true
fits ((feature, conflicts) ∷ rest) = not conflicts && fits rest

fits-first_incompatible :
    (xs : List (Feature × Bool)) → not (is_some (first_incompatible xs)) ≡ fits xs
unfolding first_incompatible
fits-first_incompatible [] = refl
fits-first_incompatible ((feature, true) ∷ rest) = refl
fits-first_incompatible ((feature, false) ∷ rest) = fits-first_incompatible rest

Decides-not-not : {P : Type 0} {b : Bool} → Decides P b → Decides P (not (not b))
Decides-not-not (Decides.holds p) = Decides.holds p
Decides-not-not (Decides.fails n) = Decides.fails n

conflicting_optional-Agrees :
    {A : Type 0} (same : A → A → Bool)
    → ((a b : A) → Decides (a ≡ b) (same a b))
    → (x y : Option A) → Decides (Agrees x y) (not (conflicting_optional same x y))
unfolding conflicting_optional
conflicting_optional-Agrees same decides none y = Decides.holds tt
conflicting_optional-Agrees same decides (some l) none = Decides.holds tt
conflicting_optional-Agrees same decides (some l) (some r) = Decides-not-not (decides l r)

number-Decides : (m n : ℕ) → Decides (m ≡ n) (m == n)
number-Decides m n = Decides-of (m == n) (λ h. ground arith) (λ h. ground arith)

near-Decides : (n : ℕ) → Decides (n ≤ 3) (not (ltb 3 n))
near-Decides n = Decides-of (not (ltb 3 n)) (λ h. ground arith) (λ h. ground arith)

-- The values as they were parsed agree, and so do the optional ones.
abbrev Fitting : Parsed → ReplacementFacts → ReplacementFacts → Type 0
Fitting v p s =
    (p.account_id ≡ s.account_id)
    × (v.left_currency ≡ v.right_currency)
    × (v.left_amount ≡ v.right_amount)
    × (v.distance ≤ 3)
    × Agrees p.installment_number s.installment_number
    × Agrees p.installment_total s.installment_total
    × Agrees p.bill_forecast_month s.bill_forecast_month
    × Agrees p.provider_bill_id s.provider_bill_id
    × Agrees p.card_last_four s.card_last_four
    × Agrees p.payee_mcc s.payee_mcc

fits-Fitting :
    (v : Parsed) (p s : ReplacementFacts) → Decides (Fitting v p s) (fits (comparisons v p s))
unfolding comparisons
fits-Fitting v p s =
    Decides-iff
      (λ (a, (b, (c, (e, (f, (g, (h, (i, (j, (k, _)))))))))). (a, b, c, e, f, g, h, i, j, k))
      (λ (a, b, c, e, f, g, h, i, j, k). (a, (b, (c, (e, (f, (g, (h, (i, (j, (k, tt)))))))))))
      (both (Decides-not-not (Decides-text_eq p.account_id s.account_id)) (
        both (Decides-not-not (Decides-text_eq v.left_currency v.right_currency)) (
          both (Decides-not-not (Decides-text_eq v.left_amount v.right_amount)) (
            both (near-Decides v.distance) (
              both
                (conflicting_optional-Agrees (λ m n. m == n) number-Decides p.installment_number
                  s.installment_number)
                (both
                  (conflicting_optional-Agrees (λ m n. m == n) number-Decides p.installment_total
                    s.installment_total)
                  (both (texts p.bill_forecast_month s.bill_forecast_month) (
                    both (texts p.provider_bill_id s.provider_bill_id) (
                      both (texts p.card_last_four s.card_last_four)
                        (both (texts p.payee_mcc s.payee_mcc) (Decides.holds tt)))))))))))
  where
    both : {P Q : Type 0} {a b : Bool} → Decides P a → Decides Q b → Decides (P × Q) (a && b)
    both p q = Decides-and _ _ p (λ _. q)

    texts : (x y : Option Text) → Decides (Agrees x y) (not (conflicting_optional text_eq x y))
    texts x y = conflicting_optional-Agrees text_eq Decides-text_eq x y

parse_currency_code-eq : (t u : Text) → parse_currency_code t ≡ ok u → u ≡ t
unfolding parse_currency_code
parse_currency_code-eq t u h = elim (Bool-cases (is_currency_code t)) [
  | inl e ↦ sym (ok-injective (rw e at h))
  | inr e ↦ absurd (cc (rw e at h))
]

module _ (d : Decimals) (score_text : ℕ → Similarity → Bool → Text) where
  parse_decimal_string-eq :
      (t u : Text) → parse_decimal_string d t ≡ ok u → u ≡ d.to_fixed (d.of_text t)
  unfolding parse_decimal_string
  parse_decimal_string-eq t u h = elim (Bool-cases (is_decimal t)) [
    | inl e ↦ elim (Bool-cases (d.is_finite (d.of_text t))) [
      | inl f ↦ sym (ok-injective (rw (e, f) at h))
      | inr f ↦ absurd (cc (rw (e, f) at h))
    ]
    | inr e ↦ absurd (cc (rw e at h))
  ]

  -- The pair is compatible: one account and currency, the same decimal, at most three days apart, and
  -- none of these six optional values that both have differs. The type of the provider may differ.
  abbrev pub Compatible : ReplacementFacts → ReplacementFacts → Type 0
  Compatible p s =
      (p.account_id ≡ s.account_id)
      × (p.currency ≡ s.currency)
      × (d.to_fixed (d.of_text p.amount_signed) ≡ d.to_fixed (d.of_text s.amount_signed))
      × ((day_of p.local_date - day_of s.local_date) + (day_of s.local_date - day_of p.local_date)
          ≤ 3)
      × Agrees p.installment_number s.installment_number
      × Agrees p.installment_total s.installment_total
      × Agrees p.bill_forecast_month s.bill_forecast_month
      × Agrees p.provider_bill_id s.provider_bill_id
      × Agrees p.card_last_four s.card_last_four
      × Agrees p.payee_mcc s.payee_mcc

  Fitting-Compatible :
      (v : Parsed) (p s : ReplacementFacts)
      → parse_facts d score_text p s ≡ ok v
      → Fitting v p s ≡ Compatible p s
  unfolding parse_facts
  Fitting-Compatible v p s h =
      let (a, e1, h1) =
        >>=-eq-ok (map_err bad_money (parse_decimal_string d p.amount_signed)) _ h in
      let (b, e2, h2) =
        >>=-eq-ok (map_err bad_money (parse_decimal_string d s.amount_signed)) _ h1 in
      let (c, e3, h3) = >>=-eq-ok (map_err bad_money (parse_currency_code p.currency)) _ h2 in
      let (e, e4, h4) = >>=-eq-ok (map_err bad_money (parse_currency_code s.currency)) _ h3 in
      let (f, e5, h5) = >>=-eq-ok (map_err bad_date (parse_bank_date p.local_date)) _ h4 in
      let (g, e6, h6) = >>=-eq-ok (map_err bad_date (parse_bank_date s.local_date)) _ h5 in
      let left = parse_decimal_string-eq p.amount_signed a (map_err-eq-ok bad_money _ e1) in
      let right = parse_decimal_string-eq s.amount_signed b (map_err-eq-ok bad_money _ e2) in
      let here = parse_currency_code-eq p.currency c (map_err-eq-ok bad_money _ e3) in
      let there = parse_currency_code-eq s.currency e (map_err-eq-ok bad_money _ e4) in
      let from = (parse_bank_date-IsBankDate p.local_date f (map_err-eq-ok bad_date _ e5)).0 in
      let to = (parse_bank_date-IsBankDate s.local_date g (map_err-eq-ok bad_date _ e6)).0 in
      ap (λ x. Fitting x p s) (sym (ok-injective h6))
      ∙ as_written a b c e f g left right here there from to
    where
      as_written :
          (a b c e f g : Text)
          → a ≡ d.to_fixed (d.of_text p.amount_signed)
          → b ≡ d.to_fixed (d.of_text s.amount_signed)
          → c ≡ p.currency
          → e ≡ s.currency
          → f ≡ p.local_date
          → g ≡ s.local_date
          → Fitting
              (record {
                left_amount = a;
                right_amount = b;
                left_currency = c;
                right_currency = e;
                distance = (day_of f - day_of g) + (day_of g - day_of f);
              })
              p
              s
            ≡ Compatible p s
      as_written a b c e f g left right here there from to =
          rw (left, right, here, there, from, to) refl

  scored-eligible :
      (v : Parsed) (p s : ReplacementFacts) (found : Option Feature)
      → (scored d score_text v p s found).eligible ≡ not (is_some found)
  unfolding scored
  scored-eligible v p s none = refl
  scored-eligible v p s (some feature) = refl

  -- Where a pair is scored, it is eligible exactly if both are of one account and currency, of the same
  -- decimal, at most three days apart, and none of six optional values that both have differs: the
  -- number and the total of the installments, the month of the bill, the provider's id of the bill, the
  -- last four digits of the card and the payee's MCC.
  pub score_transaction_replacement-Compatible :
      (p s : ReplacementFacts) (r : ReplacementScore)
      → score_transaction_replacement d score_text p s ≡ ok r
      → Decides (Compatible p s) r.eligible
  unfolding score_transaction_replacement
  score_transaction_replacement-Compatible p s r h =
      let (v, parsed, made) = >>=-eq-ok (parse_facts d score_text p s) _ h in
      let xs = comparisons v p s in
      let eligible : fits xs ≡ r.eligible =
        sym (fits-first_incompatible xs)
        ∙ sym (scored-eligible v p s (first_incompatible xs))
        ∙ ap (λ (x : ReplacementScore). x.eligible) (ok-injective made) in
      subst (λ P. Decides P r.eligible) (Fitting-Compatible v p s parsed)
        (subst (Decides (Fitting v p s)) eligible (fits-Fitting v p s))
