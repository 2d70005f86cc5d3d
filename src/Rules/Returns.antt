-- ===== src/Rules/Returns.antt =====
-- No predicate that the schema accepts makes `evaluatePredicate` of
-- packages/classification/src/rule-evaluator.ts throw on facts of the right form.
use cash_count.Base.{
  ◌≡◌, refl, Bool, true, false, not, ◌&&◌, ◌||◌, List, [], ◌∷◌, arith, leb, length, every,
  Bool-cases, inl, inr, if◌then◌else◌,
}
use cash_count.Base.Int.{ltb_ℤ}
use cash_count.Base.Numbers.{integer, other}
use cash_count.Base.Results.{Result, ok}
use cash_count.Decimal.Pattern.{is_decimal}
use cash_count.Decimal.Units.Reads.{is_decimal-reads}
use cash_count.Rules.Types.{
  Field, installment_total, Scalar, string_value, number_value, other_value, RuleError, Engine,
}
use cash_count.Rules.Schema.{is_field_scalar, is_field_text}
use cash_count.Rules.Conditions.{
  Order, order_of, compare_values, compare_as, compare_texts, is_decimal_field, is_among,
  is_between, is_same, is_below, is_above,
}

-- The computation returns and does not throw.
abbrev pub Returns : {A : Type 0} → Result RuleError A → Type 0
Returns {A} r = (a : A) × (r ≡ ok a)

abbrev pub is_number_field : Field → Bool
is_number_field installment_total = true
is_number_field f = false

-- A value that the comparisons of a field read: an integer, a decimal string or any string.
abbrev pub is_comparable : Field → Scalar → Bool
is_comparable f (string_value s) =
    not (is_number_field f) && (not (is_decimal_field f) || is_decimal s)
is_comparable f (number_value (integer z)) = is_number_field f
is_comparable f (number_value other) = false
is_comparable f other_value = false

-- A text that regular expressions may be matched against.
abbrev pub is_short : Scalar → Bool
is_short (string_value s) = leb (length s) 1000
is_short v = true

number_not_decimal : (f : Field) → is_number_field f ≡ true → is_decimal_field f ≡ false
number_not_decimal f h = ground arith

field_scalar_comparable :
    (e : Engine) (f : Field) (v : Scalar) → is_field_scalar e f v ≡ true → is_comparable f v ≡ true
unfolding is_field_scalar is_field_text
field_scalar_comparable e f v h = ground arith

compare-Returns :
    (f : Field) (a b : Scalar)
    → is_comparable f a ≡ true
    → is_comparable f b ≡ true
    → Returns (compare_values f a b)
unfolding compare_values
compare-Returns f (string_value s) (string_value t) h k = elim (Bool-cases (is_decimal_field f)) [
  | inl d ↦
      let (y, p) = is_decimal-reads s (ground arith) in
      let (z, q) = is_decimal-reads t (ground arith) in
      (order_of (ltb_ℤ y z) (ltb_ℤ z y), rw (d, p, q))
  | inr d ↦ (compare_texts s t, rw d)
]
compare-Returns f (number_value (integer y)) (number_value (integer z)) h k =
    (order_of (ltb_ℤ y z) (ltb_ℤ z y), rw (number_not_decimal f h))
compare-Returns f (string_value s) (number_value n) h k = absurd (ground arith)
compare-Returns f (string_value s) other_value h k = absurd (cc)
compare-Returns f (number_value n) (string_value s) h k = absurd (ground arith)
compare-Returns f (number_value (integer y)) (number_value other) h k = absurd (cc)
compare-Returns f (number_value (integer y)) other_value h k = absurd (cc)
compare-Returns f (number_value other) b h k = absurd (cc)
compare-Returns f other_value b h k = absurd (cc)

compare_as-Returns :
    (test : Order → Bool) (r : Result RuleError Order) → Returns r → Returns (compare_as test r)
compare_as-Returns test r (o, h) = (test o, rw h)

pub compare_to-Returns :
    (e : Engine) (test : Order → Bool) (f : Field) (a v : Scalar)
    → is_comparable f a ≡ true
    → is_field_scalar e f v ≡ true
    → Returns (compare_as test (compare_values f a v))
compare_to-Returns e test f a v h k =
    compare_as-Returns test (compare_values f a v)
      (compare-Returns f a v h (field_scalar_comparable e f v k))

pub among-Returns :
    (e : Engine) (f : Field) (a : Scalar) (vs : List Scalar)
    → is_comparable f a ≡ true
    → every (is_field_scalar e f) vs ≡ true
    → Returns (is_among f a vs)
unfolding is_among
among-Returns e f a [] h k = (false, refl)
among-Returns e f a (v ∷ vs) h k =
    let (found, p) = compare_to-Returns e is_same f a v h (ground arith) in
    let (rest, q) = among-Returns e f a vs h (ground arith) in
    (if found then true else rest, go found p q)
  where
    go :
        (found : Bool)
        → compare_as is_same (compare_values f a v) ≡ ok found
        → {rest : Bool} → is_among f a vs ≡ ok rest
        → is_among f a (v ∷ vs) ≡ ok (if found then true else rest)
    go true p q = rw p
    go false p q = rw (p, q)

pub between-Returns :
    (e : Engine) (f : Field) (a lo hi : Scalar)
    → is_comparable f a ≡ true
    → is_field_scalar e f lo ≡ true
    → is_field_scalar e f hi ≡ true
    → Returns (is_between f a lo hi)
unfolding is_between
between-Returns e f a lo hi h k l =
    let (enough, p) = compare_to-Returns e (λ o. not (is_below o)) f a lo h k in
    let (low, q) = compare_to-Returns e (λ o. not (is_above o)) f a hi h l in
    (if enough then low else false, go enough p q)
  where
    go :
        (enough : Bool)
        → compare_as (λ o. not (is_below o)) (compare_values f a lo) ≡ ok enough
        → {low : Bool} → compare_as (λ o. not (is_above o)) (compare_values f a hi) ≡ ok low
        → is_between f a lo hi ≡ ok (if enough then low else false)
    go true p q = rw (p, q)
    go false p q = rw p
