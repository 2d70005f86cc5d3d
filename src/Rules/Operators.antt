-- ===== src/Rules/Operators.antt =====
-- No operator of `evaluatePredicate` throws on an operand that the schema accepts.
use cash_count.Base.{◌≡◌, refl, Bool, true, false, not, [], ◌∷◌, arith}
use cash_count.Base.Numbers.{integer, other}
use cash_count.Base.Results.{ok, err}
use cash_count.Base.Text.{Text}
use cash_count.Rules.Types.{
  Field, Operator, eq, neq, contains, starts_with, in_values, between, gt, gte, lt, lte, regex_safe,
  Scalar, string_value, number_value, other_value, Value, scalar, array, Engine, long_input,
}
use cash_count.Rules.Schema.{field_kind, kind_has, is_operand, is_field_scalar, is_safe_pattern}
use cash_count.Rules.Conditions.{
  apply_operator, test_texts, test_pattern, is_infix, is_prefix, is_same, is_below, is_above,
}
use cash_count.Rules.Returns.{
  Returns, is_comparable, is_short, is_number_field, among-Returns, between-Returns,
  compare_to-Returns,
}

search_not_number :
    (f : Field) → kind_has (field_kind f) contains ≡ true → is_number_field f ≡ false
unfolding kind_has field_kind
search_not_number f h = ground arith

search_same : (f : Field) → kind_has (field_kind f) contains ≡ kind_has (field_kind f) regex_safe
unfolding kind_has
search_same f = ground arith

starts_same : (f : Field) → kind_has (field_kind f) starts_with ≡ kind_has (field_kind f) contains
unfolding kind_has
starts_same f = ground arith

texts_return :
    (e : Engine) (f : Field) (test : Text → Text → Bool) (a v : Scalar)
    → is_comparable f a ≡ true
    → kind_has (field_kind f) contains ≡ true
    → is_field_scalar e f v ≡ true
    → Returns (test_texts (λ s t. ok (test s t)) a (scalar v))
unfolding is_field_scalar
texts_return e f test (string_value s) (string_value t) h k l = (test s t, refl)
texts_return e f test (string_value s) (number_value n) h k l =
    absurd (ground (arith, search_not_number f k))
texts_return e f test (string_value s) other_value h k l = absurd (cc)
texts_return e f test (number_value (integer z)) v h k l = absurd (cc (search_not_number f k))
texts_return e f test (number_value other) v h k l = absurd (cc)
texts_return e f test other_value v h k l = absurd (cc)

pattern-Returns :
    (e : Engine) (f : Field) (a : Scalar) (t : Text)
    → is_comparable f a ≡ true
    → kind_has (field_kind f) contains ≡ true
    → is_short a ≡ true
    → is_safe_pattern e t ≡ true
    → Returns (test_texts (λ s p. test_pattern e p s) a (scalar (string_value t)))
unfolding test_pattern
pattern-Returns e f (string_value s) t h k l p = (e.matches_pattern t s, rw (l, p))
pattern-Returns e f (number_value (integer z)) t h k l p = absurd (cc (search_not_number f k))
pattern-Returns e f (number_value other) t h k l p = absurd (cc)
pattern-Returns e f other_value t h k l p = absurd (cc)

abbrev pub is_pattern : Operator → Bool
is_pattern regex_safe = true
is_pattern o = false

-- A pattern applied to a longer text throws.
pub pattern_throws :
    (e : Engine) (f : Field) (o : Operator) (a : Scalar) (v : Value)
    → is_pattern o ≡ true
    → is_short a ≡ false
    → is_operand e f o v ≡ true
    → apply_operator e f o a v ≡ err long_input
unfolding apply_operator is_operand test_pattern
pattern_throws e f regex_safe (string_value s) (scalar (string_value t)) h k l = rw k
pattern_throws e f regex_safe (number_value n) v h k l = absurd (cc)
pattern_throws e f regex_safe other_value v h k l = absurd (cc)
pattern_throws e f regex_safe (string_value s) (scalar (number_value n)) h k l = absurd (cc)
pattern_throws e f regex_safe (string_value s) (scalar other_value) h k l = absurd (cc)
pattern_throws e f regex_safe (string_value s) (array vs) h k l = absurd (cc)
pattern_throws e f o a v h k l = absurd (ground arith)

-- The text that a pattern is matched against must be short.
pub operator-Returns :
    (e : Engine) (f : Field) (o : Operator) (a : Scalar) (v : Value)
    → is_comparable f a ≡ true
    → (is_pattern o ≡ true → is_short a ≡ true)
    → kind_has (field_kind f) o ≡ true
    → is_operand e f o v ≡ true
    → Returns (apply_operator e f o a v)
unfolding apply_operator is_operand
operator-Returns e f eq a (scalar v) h s k l = compare_to-Returns e is_same f a v h l
operator-Returns e f neq a (scalar v) h s k l =
    compare_to-Returns e (λ o. not (is_same o)) f a v h l
operator-Returns e f gt a (scalar v) h s k l = compare_to-Returns e is_above f a v h l
operator-Returns e f gte a (scalar v) h s k l =
    compare_to-Returns e (λ o. not (is_below o)) f a v h l
operator-Returns e f lt a (scalar v) h s k l = compare_to-Returns e is_below f a v h l
operator-Returns e f lte a (scalar v) h s k l =
    compare_to-Returns e (λ o. not (is_above o)) f a v h l
operator-Returns e f contains a (scalar v) h s k l =
    texts_return e f (λ x y. is_infix y x) a v h k l
operator-Returns e f starts_with a (scalar v) h s k l =
    texts_return e f (λ x y. is_prefix y x) a v h (cc (starts_same f)) l
operator-Returns e f regex_safe a (scalar (string_value t)) h s k l =
    pattern-Returns e f a t h (cc (search_same f)) (s refl) l
operator-Returns e f regex_safe a (scalar (number_value n)) h s k l = absurd (cc)
operator-Returns e f regex_safe a (scalar other_value) h s k l = absurd (cc)
operator-Returns e f in_values a (array vs) h s k l = among-Returns e f a vs h (ground arith)
operator-Returns e f between a (array (lo ∷ hi ∷ [])) h s k l =
    between-Returns e f a lo hi h (ground arith) (ground arith)
operator-Returns e f between a (array []) h s k l = absurd (cc)
operator-Returns e f between a (array (x ∷ [])) h s k l = absurd (cc)
operator-Returns e f between a (array (x ∷ y ∷ z ∷ vs)) h s k l = absurd (cc)
operator-Returns e f between a (scalar v) h s k l = absurd (cc)
operator-Returns e f in_values a (scalar v) h s k l = absurd (cc)
operator-Returns e f eq a (array vs) h s k l = absurd (cc)
operator-Returns e f neq a (array vs) h s k l = absurd (cc)
operator-Returns e f gt a (array vs) h s k l = absurd (cc)
operator-Returns e f gte a (array vs) h s k l = absurd (cc)
operator-Returns e f lt a (array vs) h s k l = absurd (cc)
operator-Returns e f lte a (array vs) h s k l = absurd (cc)
operator-Returns e f contains a (array vs) h s k l = absurd (cc)
operator-Returns e f starts_with a (array vs) h s k l = absurd (cc)
operator-Returns e f regex_safe a (array vs) h s k l = absurd (cc)
