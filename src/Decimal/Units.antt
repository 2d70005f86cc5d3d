-- ===== src/Decimal/Units.antt =====
-- `decimalUnits` of packages/classification/src/rule-evaluator.ts: a decimal string as a count of
-- millionths. `BigInt` is modelled on strings of decimal digits, the empty one included.
pub mod Reads
pub mod Bounds
use cash_count.Base.{
  ℕ, zero, suc, ◌+◌, ◌-◌, ◌*◌, Bool, true, false, Option, none, some, [], ◌∷◌, ◌==◌, if◌then◌else◌,
}
use cash_count.Base.Int.{ℤ, pos, sub_ℕ}
use cash_count.Base.Text.{Text, is_digit}

-- The first two parts of `split('.')`.
before_dot : Text → Text
before_dot [] = []
before_dot (c ∷ cs) = if c == b'.' then [] else c ∷ before_dot cs

after_dot : Text → Text
unfolding before_dot
after_dot [] = []
after_dot (c ∷ cs) = let rest = after_dot cs in if c == b'.' then before_dot cs else rest

-- `padEnd(n, '0')`
pad_end : ℕ → Text → Text
pad_end zero s = s
pad_end (suc n) [] = b'0' ∷ pad_end n []
pad_end (suc n) (c ∷ cs) = c ∷ pad_end n cs

-- `BigInt(s)`; `none` where it throws.
big_int_from : ℕ → Text → Option ℕ
big_int_from acc [] = some acc
big_int_from acc (c ∷ cs) =
    let rest = big_int_from (acc * 10 + (c - b'0')) cs in if is_digit c then rest else none

abbrev millionths : Option ℕ → Option ℕ → Option ℕ
millionths none f = none
millionths (some i) none = none
millionths (some i) (some f) = some (i * 1000000 + f)

unfoldable pub unsigned_units : Text → Option ℕ
unfolding after_dot pad_end big_int_from
unsigned_units s =
    millionths (big_int_from 0 (before_dot s)) (big_int_from 0 (pad_end 6 (after_dot s)))

abbrev signed : Bool → Option ℕ → Option ℤ
signed negative none = none
signed true (some n) = some (sub_ℕ 0 n)
signed false (some n) = some (pos n)

unfoldable pub decimal_units : Text → Option ℤ
unfolding unsigned_units
decimal_units [] = signed false (unsigned_units [])
decimal_units (c ∷ cs) =
    if c == b'-' then signed true (unsigned_units cs) else signed false (unsigned_units (c ∷ cs))
