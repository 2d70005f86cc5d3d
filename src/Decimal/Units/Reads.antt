-- ===== src/Decimal/Units/Reads.antt =====
-- Every string of the decimal pattern is read as a count of millionths: `BigInt` never throws on it.
use cash_count.Base.{
  ℕ, zero, suc, ◌+◌, ◌-◌, ◌*◌, ◌≡◌, refl, true, some, [], ◌∷◌, arith, every, ◌==◌, Bool-cases, inl,
  inr,
}
use cash_count.Base.Int.{ℤ, pos, sub_ℕ}
use cash_count.Base.Text.{Text, is_digit}
use cash_count.Decimal.Pattern.{is_decimal, is_unsigned_decimal, is_integer_tail, is_fraction}
use cash_count.Decimal.Units.{
  before_dot, after_dot, pad_end, big_int_from, unsigned_units, decimal_units,
}

big_int_from_digits :
    (acc : ℕ) (s : Text) → every is_digit s ≡ true → (n : ℕ) × (big_int_from acc s ≡ some n)
unfolding big_int_from
big_int_from_digits acc [] h = (acc, refl)
big_int_from_digits acc (c ∷ cs) h =
    let digit : is_digit c ≡ true = ground arith in
    let rest : every is_digit cs ≡ true = ground arith in
    let (n, e) = big_int_from_digits (acc * 10 + (c - b'0')) cs rest in (n, rw digit e)

pad_end_digits : (n : ℕ) (s : Text) → every is_digit s ≡ true → every is_digit (pad_end n s) ≡ true
unfolding pad_end
pad_end_digits zero s h = h
pad_end_digits (suc n) [] h = pad_end_digits n [] refl
pad_end_digits (suc n) (c ∷ cs) h = ground (arith, pad_end_digits n cs)

before_dot_digits : (s : Text) → every is_digit s ≡ true → every is_digit (before_dot s) ≡ true
unfolding before_dot
before_dot_digits [] h = refl
before_dot_digits (c ∷ cs) h = ground (arith, before_dot_digits cs)

-- Both sides of the point are digits.
abbrev HasDigits : Text → Type 0
HasDigits s = (every is_digit (before_dot s) ≡ true) × (every is_digit (after_dot s) ≡ true)

fraction_digits : (s : Text) → is_fraction s ≡ true → HasDigits s
unfolding is_fraction before_dot after_dot
fraction_digits [] h = (refl, refl)
fraction_digits (c ∷ cs) h = ground (arith, before_dot_digits cs)

digit_before : (c : ℕ) (cs : Text) → is_digit c ≡ true → HasDigits cs → HasDigits (c ∷ cs)
unfolding before_dot after_dot
digit_before c cs h k = ground arith

tail_digits : (n : ℕ) (s : Text) → is_integer_tail n s ≡ true → HasDigits s
unfolding is_integer_tail
tail_digits n [] h = fraction_digits [] refl
tail_digits zero (c ∷ cs) h = fraction_digits (c ∷ cs) h
tail_digits (suc n) (c ∷ cs) h = elim (Bool-cases (is_digit c)) [
  | inl e ↦ digit_before c cs e (tail_digits n cs (rw e at h))
  | inr e ↦ fraction_digits (c ∷ cs) (rw e at h)
]

unsigned_digits : (s : Text) → is_unsigned_decimal s ≡ true → HasDigits s
unfolding is_unsigned_decimal
unsigned_digits [] h = cc
unsigned_digits (c ∷ cs) h = elim (Bool-cases (c == b'0')) [
  | inl e ↦ digit_before c cs (ground arith) (fraction_digits cs (rw e at h))
  | inr e ↦ digit_before c cs (ground arith) (tail_digits 13 cs (ground arith))
]

unsigned_reads : (s : Text) → is_unsigned_decimal s ≡ true → (n : ℕ) × (unsigned_units s ≡ some n)
unfolding unsigned_units
unsigned_reads s h =
    let digits = unsigned_digits s h in
    let (i, p) = big_int_from_digits 0 (before_dot s) digits.0 in
    let (f, q) =
      big_int_from_digits 0 (pad_end 6 (after_dot s)) (pad_end_digits 6 (after_dot s) digits.1) in
    (i * 1000000 + f, rw (p, q))

pub is_decimal-reads : (s : Text) → is_decimal s ≡ true → (z : ℤ) × (decimal_units s ≡ some z)
unfolding is_decimal decimal_units
is_decimal-reads [] h = cc
is_decimal-reads (c ∷ cs) h = elim (Bool-cases (c == b'-')) [
  | inl e ↦ let (n, p) = unsigned_reads cs (rw e at h) in (sub_ℕ 0 n, rw (e, p))
  | inr e ↦ let (n, p) = unsigned_reads (c ∷ cs) (rw e at h) in (pos n, rw (e, p))
]
