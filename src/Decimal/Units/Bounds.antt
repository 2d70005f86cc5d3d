-- ===== src/Decimal/Units/Bounds.antt =====
-- A string of the decimal pattern has at most twenty digits in millionths.
use cash_count.Base.{
  ℕ, zero, suc, ◌+◌, ◌-◌, ◌*◌, ◌≤◌, ◌<◌, ◌≡◌, refl, Bool, true, false, Option, some, none, [], ◌∷◌,
  arith, ◌==◌, Bool-cases, subst, sym, inl, inr, length,
}
use native.Mathlib.Nat.{le_trans, mul-le-mul_right, mul_assoc}
use cash_count.Base.Int.{ℤ, pos, sub_ℕ}
use cash_count.Base.Text.{Text, is_digit}
use cash_count.Decimal.Pattern.{is_decimal, is_unsigned_decimal, is_integer_tail, is_fraction}
use cash_count.Decimal.Units.{
  before_dot, after_dot, pad_end, big_int_from, unsigned_units, decimal_units, millionths, signed,
}
use cash_count.Decimal.Money.{magnitude, IsSmall}

-- A power of ten.
abbrev tens : ℕ → ℕ
tens zero = 1
tens (suc n) = 10 * tens n

tens_mono : (n m : ℕ) → n ≤ m → tens n ≤ tens m
tens_mono zero zero h = omega arith
tens_mono zero (suc m) h = let rest = tens_mono zero m (omega arith) in omega (arith, rest)
tens_mono (suc n) zero h = absurd (omega arith)
tens_mono (suc n) (suc m) h = let rest = tens_mono n m (omega arith) in omega (arith, rest)

-- One more digit.
one_digit :
    (acc c m t : ℕ)
    → is_digit c ≡ true
    → m < (acc * 10 + (c - b'0') + 1) * t
    → m < (acc + 1) * (10 * t)
one_digit acc c m t h l = le_trans l (
    subst (λ x. (acc * 10 + (c - b'0') + 1) * t ≤ x) (mul_assoc (acc + 1) 10 t)
      (mul-le-mul_right t place))
  where
    place : acc * 10 + (c - b'0') + 1 ≤ (acc + 1) * 10
    place = ground arith

big_int_from_bound :
    (acc n : ℕ) (s : Text) → big_int_from acc s ≡ some n → n < (acc + 1) * tens (length s)
unfolding big_int_from
big_int_from_bound acc n [] h = ground arith
big_int_from_bound acc n (c ∷ cs) h = elim (Bool-cases (is_digit c)) [
  | inl e ↦
      one_digit acc c n (tens (length cs)) e
        (big_int_from_bound (acc * 10 + (c - b'0')) n cs (rw e at h))
  | inr e ↦ absurd (cc (rw e at h))
]

big_int_bound : (n k : ℕ) (s : Text) → big_int_from 0 s ≡ some n → length s ≤ k → n < tens k
big_int_bound n k s h l =
    let all = big_int_from_bound 0 n s h in
    let more = tens_mono (length s) k l in omega (arith, all, more)

-- The digits before the point, and behind it.
short_before : (n : ℕ) (s : Text) → is_integer_tail n s ≡ true → length (before_dot s) ≤ n
unfolding is_integer_tail is_fraction before_dot
short_before n [] h = omega arith
short_before zero (c ∷ cs) h = ground arith
short_before (suc n) (c ∷ cs) h = ground (arith, short_before n cs)

before_dot_short : (s : Text) → length (before_dot s) ≤ length s
unfolding before_dot
before_dot_short [] = omega arith
before_dot_short (c ∷ cs) = ground (arith, before_dot_short cs)

short_fraction : (s : Text) → is_fraction s ≡ true → length (after_dot s) ≤ 6
unfolding is_fraction after_dot
short_fraction [] h = omega arith
short_fraction (c ∷ cs) h = ground (arith, before_dot_short cs)

short_after : (n : ℕ) (s : Text) → is_integer_tail n s ≡ true → length (after_dot s) ≤ 6
unfolding is_integer_tail after_dot
short_after n [] h = omega arith
short_after zero (c ∷ cs) h = short_fraction (c ∷ cs) h
short_after (suc n) (c ∷ cs) h = elim (Bool-cases (is_digit c)) [
  | inl e ↦
      let rest = short_after n cs (rw e at h) in
      let point : (c == b'.') ≡ false = ground arith in rw point rest
  | inr e ↦ short_fraction (c ∷ cs) (rw e at h)
]

length-pad_end : (n : ℕ) (s : Text) → length s ≤ n → length (pad_end n s) ≡ n
unfolding pad_end
length-pad_end zero [] h = refl
length-pad_end zero (c ∷ cs) h = absurd (omega arith)
length-pad_end (suc n) [] h = omega (arith, length-pad_end n [] (omega arith))
length-pad_end (suc n) (c ∷ cs) h = omega (arith, length-pad_end n cs (omega arith))

suc_le : {m n : ℕ} → m ≤ n → suc m ≤ suc n
suc_le h = omega arith

fraction_first : (s : Text) → is_fraction s ≡ true → length (before_dot s) ≤ 0
unfolding is_fraction before_dot
fraction_first [] h = omega arith
fraction_first (c ∷ cs) h = ground arith

-- A text without a sign: fourteen digits at most before the point and six behind it.
short_parts :
    (s : Text)
    → is_unsigned_decimal s ≡ true
    → (length (before_dot s) ≤ 14) × (length (after_dot s) ≤ 6)
unfolding is_unsigned_decimal before_dot after_dot
short_parts [] h = absurd (cc)
short_parts (c ∷ cs) h = elim (Bool-cases (c == b'0')) [
  | inl e ↦
      let k : is_fraction cs ≡ true = rw e at h in
      let point : (c == b'.') ≡ false = ground arith in
      rw point (le_trans (suc_le (fraction_first cs k)) (omega arith), short_fraction cs k)
  | inr e ↦
      let k : is_integer_tail 13 cs ≡ true = ground arith in
      let point : (c == b'.') ≡ false = ground arith in
      rw point (suc_le (short_before 13 cs k), short_after 13 cs k)
]

unsigned_units_bound :
    (s : Text) (n : ℕ)
    → is_unsigned_decimal s ≡ true
    → unsigned_units s ≡ some n
    → n < 100000000000000000000
unfolding unsigned_units
unsigned_units_bound s n h e =
    let (before, after) = short_parts s h in
    two_parts (big_int_from 0 (before_dot s)) (big_int_from 0 (pad_end 6 (after_dot s)))
      (λ i k. big_int_bound i 14 (before_dot s) k before)
      (λ f k.
        big_int_bound f 6 (pad_end 6 (after_dot s)) k
          (subst (λ x. x ≤ 6) (sym (length-pad_end 6 (after_dot s) after)) (omega arith)))
      e
  where
    two_parts :
        (whole part : Option ℕ)
        → ((i : ℕ) → whole ≡ some i → i < 100000000000000)
        → ((f : ℕ) → part ≡ some f → f < 1000000)
        → millionths whole part ≡ some n
        → n < 100000000000000000000
    two_parts none part a b k = absurd (cc)
    two_parts (some i) none a b k = absurd (cc)
    two_parts (some i) (some f) a b k =
        let sum : i * 1000000 + f ≡ n = cc in omega (arith, a i refl, b f refl, sum)

magnitude-sub_ℕ : (n : ℕ) → magnitude (sub_ℕ 0 n) ≡ n
magnitude-sub_ℕ zero = refl
magnitude-sub_ℕ (suc n) = ground arith

with_sign :
    (negative : Bool) (r : Option ℕ) {z : ℤ}
    → ((n : ℕ) → r ≡ some n → n < 100000000000000000000)
    → signed negative r ≡ some z
    → IsSmall z
with_sign negative none h e = absurd (cc)
with_sign true (some n) {z} h e =
    let value : sub_ℕ 0 n ≡ z = cc in
    subst IsSmall value
      (subst (λ x. x < 100000000000000000000) (sym (magnitude-sub_ℕ n)) (h n refl))
with_sign false (some n) {z} h e =
    let value : pos n ≡ z = cc in
    let small : n < 100000000000000000000 = h n refl in subst IsSmall value (omega (arith, small))

-- Every accepted decimal string is small enough for exact differences.
pub is_decimal-IsSmall :
    (s : Text) (z : ℤ) → is_decimal s ≡ true → decimal_units s ≡ some z → IsSmall z
unfolding is_decimal decimal_units
is_decimal-IsSmall [] z h e = absurd (cc)
is_decimal-IsSmall (c ∷ cs) z h e = elim (Bool-cases (c == b'-')) [
  | inl k ↦
      let body : is_unsigned_decimal cs ≡ true = rw k at h in
      let units : signed true (unsigned_units cs) ≡ some z = rw k at e in
      with_sign true (unsigned_units cs) (λ n. unsigned_units_bound cs n body) units
  | inr k ↦
      let body : is_unsigned_decimal (c ∷ cs) ≡ true = rw k at h in
      let units : signed false (unsigned_units (c ∷ cs)) ≡ some z = rw k at e in
      with_sign false (unsigned_units (c ∷ cs)) (λ n. unsigned_units_bound (c ∷ cs) n body) units
]
