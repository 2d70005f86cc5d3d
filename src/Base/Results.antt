-- ===== src/Base/Results.antt =====
-- What a function that may throw comes to, and how such functions follow one another.
use mathlib.Core.Path.{◌≡◌, refl}
use mathlib.Core.Bool.{Bool, true, false}
use cash_count.Base.Tests.{if◌then◌else◌}

pub data Result (Thrown Value : Type 0) : Type 0 where
  err : Thrown → Result Thrown Value
  ok : Value → Result Thrown Value

module _ {Thrown Next : Type 0} where
  infixl 5 ◌>>=◌ ◌>>◌
  -- The rest runs on the value, unless the first part threw.
  abbrev pub ◌>>=◌ :
      {Value : Type 0} → Result Thrown Value → (Value → Result Thrown Next) → Result Thrown Next
  err thrown >>= next = err thrown
  ok value >>= next = next value

  abbrev pub ◌>>◌ : Result Thrown (Unit {0}) → Result Thrown Next → Result Thrown Next
  first >> next = first >>= λ done. next

  -- Both parts of a computation that returned.
  pub >>=-eq-ok :
      {Value : Type 0} (first : Result Thrown Value) (rest : Value → Result Thrown Next)
      {last : Next}
      → (first >>= rest) ≡ ok last
      → (value : Value) × (first ≡ ok value) × (rest value ≡ ok last)
  >>=-eq-ok (err thrown) rest returned = cc
  >>=-eq-ok (ok value) rest returned = (value, refl, returned)

-- `if (!test) throw thrown`
abbrev pub guard : {Thrown : Type 0} → Bool → Thrown → Result Thrown (Unit {0})
guard test thrown = if test then ok tt else err thrown

-- The same computation with another error.
abbrev pub map_err : {E F A : Type 0} → (E → F) → Result E A → Result F A
map_err f (err e) = err (f e)
map_err f (ok a) = ok a

pub map_err-eq-ok :
    {E F A : Type 0} (f : E → F) (r : Result E A) {a : A} → map_err f r ≡ ok a → r ≡ ok a
map_err-eq-ok f (err e) h = cc
map_err-eq-ok f (ok b) h = cc

pub guard-eq-ok : {E : Type 0} (b : Bool) (e : E) {u : Unit {0}} → guard b e ≡ ok u → b ≡ true
guard-eq-ok true e h = refl
guard-eq-ok false e h = cc

pub ok-injective : {E A : Type 0} {a b : A} → ◌≡◌ {A = Result E A} (ok a) (ok b) → a ≡ b
ok-injective h = cc
