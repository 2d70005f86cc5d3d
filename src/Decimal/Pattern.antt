-- ===== src/Decimal/Pattern.antt =====
-- The text patterns of packages/domain/src/money.ts.
use cash_count.Base.{
  ℕ, zero, suc, Bool, true, false, ◌&&◌, [], ◌∷◌, leb, ◌==◌, if◌then◌else◌, length, every,
}
use cash_count.Base.Text.{Text, matches, is_digit, is_upper}

-- `/^[A-Z]{3}$/`
unfoldable pub is_currency_code : Text → Bool
unfolding matches
is_currency_code = matches (is_upper ∷ is_upper ∷ is_upper ∷ [])

-- `(?:\.\d{1,6})?$`
unfoldable pub is_fraction : Text → Bool
is_fraction [] = true
is_fraction (c ∷ cs) = c == b'.' && leb 1 (length cs) && leb (length cs) 6 && every is_digit cs

-- At most `n` more digits, and then the fraction.
unfoldable pub is_integer_tail : ℕ → Text → Bool
unfolding is_fraction
is_integer_tail n [] = true
is_integer_tail zero (c ∷ cs) = is_fraction (c ∷ cs)
is_integer_tail (suc n) (c ∷ cs) =
    let rest = is_integer_tail n cs in if is_digit c then rest else is_fraction (c ∷ cs)

-- `(?:0|[1-9]\d{0,13})(?:\.\d{1,6})?$`
unfoldable pub is_unsigned_decimal : Text → Bool
unfolding is_integer_tail
is_unsigned_decimal [] = false
is_unsigned_decimal (c ∷ cs) =
    if c == b'0' then is_fraction cs else leb b'1' c && leb c b'9' && is_integer_tail 13 cs

-- `/^-?(?:0|[1-9]\d{0,13})(?:\.\d{1,6})?$/`
unfoldable pub is_decimal : Text → Bool
unfolding is_unsigned_decimal
is_decimal [] = false
is_decimal (c ∷ cs) = if c == b'-' then is_unsigned_decimal cs else is_unsigned_decimal (c ∷ cs)
