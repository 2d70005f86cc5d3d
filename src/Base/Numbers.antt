-- ===== src/Base/Numbers.antt =====
-- JavaScript numbers and dates as the validation code sees them.
use cash_count.Base.{ap, ℕ, ◌≤◌, ◌≡◌, ◌&&◌, Option, none, some, arith, leb, if◌then◌else◌}
use cash_count.Base.Int.{ℤ, pos, negsuc}
use cash_count.Base.Results.{Result, ok, err}

-- `other` is a number that is no integer: a fraction, an infinity or NaN.
pub data JsNumber : Type 0 where
  integer : ℤ → JsNumber
  other : JsNumber

abbrev pub max_safe_integer : ℕ
max_safe_integer = 9007199254740991

-- A safe integer from `lo` to `hi`, both of them natural numbers.
unfoldable pub require_between : {E : Type 0} → ℕ → ℕ → JsNumber → E → Result E ℕ
require_between lo hi (integer (pos n)) e =
    if leb n max_safe_integer && leb lo n && leb n hi then ok n else err e
require_between lo hi (integer (negsuc n)) e = err e
require_between lo hi other e = err e

-- A `Date`, in milliseconds from an origin before all the dates in use. `none` is an invalid date.
abbrev pub Instant : Type 0
Instant = Option ℕ

unfoldable pub require_instant : {E : Type 0} → E → Instant → Result E ℕ
require_instant e none = err e
require_instant e (some t) = ok t

-- Only an integer is let through, unchanged.
pub require_between_same :
    {E : Type 0} (lo hi : ℕ) (x : JsNumber) (e : E) (n : ℕ)
    → require_between lo hi x e ≡ ok n
    → x ≡ integer (pos n)
unfolding require_between
require_between_same lo hi (integer (pos m)) e n h =
    let same : m ≡ n = ground arith in ap (λ k. integer (pos k)) same
require_between_same lo hi (integer (negsuc m)) e n h = cc
require_between_same lo hi other e n h = cc

pub require_between-bounds :
    {E : Type 0} (lo hi : ℕ) (x : JsNumber) (e : E) (n : ℕ)
    → require_between lo hi x e ≡ ok n
    → (lo ≤ n) × (n ≤ hi)
unfolding require_between
require_between-bounds lo hi (integer (pos m)) e n h = ground arith
require_between-bounds lo hi (integer (negsuc m)) e n h = cc
require_between-bounds lo hi other e n h = cc
