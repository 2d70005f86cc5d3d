-- ===== src/Base/Deciding.antt =====
-- What a test says of a proposition.
use mathlib.Core.Path.{◌≡◌, refl}
use mathlib.Core.Logic.{inl, inr, ◌⊎◌}
use mathlib.Core.Bool.{Bool, true, false, ◌&&◌, ◌||◌, not}
use Prim.Native.Nat.{ℕ, ◌≤◌}
use native.Mathlib.Omega.{arith}
use cash_count.Base.Tests.{leb}
use cash_count.Base.Text.{Text, text_eq, text_eq_refl, text_eq→eq}

pub data Decides (P : Type 0) : Bool → Type 0 where
  holds : P → Decides P true
  fails : ¬ P → Decides P false

-- The second test counts only where the first holds.
pub Decides-and :
    {P Q : Type 0} (a b : Bool) → Decides P a → (a ≡ true → Decides Q b) → Decides (P × Q) (a && b)
Decides-and true b (Decides.holds p) q = both p (q refl)
  where
    both : {P Q : Type 0} {c : Bool} → P → Decides Q c → Decides (P × Q) c
    both p (Decides.holds q) = Decides.holds (p, q)
    both p (Decides.fails n) = Decides.fails (λ pair. n pair.1)
Decides-and false b (Decides.fails n) q = Decides.fails (λ pair. n pair.0)

pub Decides-iff : {P Q : Type 0} {a : Bool} → (P → Q) → (Q → P) → Decides P a → Decides Q a
Decides-iff f g (Decides.holds p) = Decides.holds (f p)
Decides-iff f g (Decides.fails n) = Decides.fails (λ q. n (g q))

pub Decides-not : {P : Type 0} {a : Bool} → Decides P a → Decides (¬ P) (not a)
Decides-not (Decides.holds p) = Decides.fails (λ n. n p)
Decides-not (Decides.fails n) = Decides.holds n

module _ {P : Type 0} where
  -- A test that is true exactly when the proposition holds.
  pub Decides-of : (b : Bool) → (b ≡ true → P) → (P → b ≡ true) → Decides P b
  Decides-of true f g = Decides.holds (f refl)
  Decides-of false f g = Decides.fails (λ p. cc (g p))

pub Decides-leb : (a b : ℕ) → Decides (a ≤ b) (leb a b)
Decides-leb a b = Decides-of (leb a b) (λ h. ground arith) (λ h. ground arith)

pub Decides-text_eq : (s t : Text) → Decides (s ≡ t) (text_eq s t)
Decides-text_eq s t = Decides-of (text_eq s t) (text_eq→eq s t) (λ e. rw e (text_eq_refl t))

pub Decides-true : {P : Type 0} (b : Bool) → b ≡ true → Decides P b → P
Decides-true true e (Decides.holds p) = p
Decides-true false e d = absurd (cc)

pub Decides-false : {P : Type 0} (b : Bool) → b ≡ false → Decides P b → ¬ P
Decides-false false e (Decides.fails n) = n
Decides-false true e d = absurd (cc)

pub Decides-or : {P Q : Type 0} (a b : Bool) → Decides P a → Decides Q b → Decides (P ⊎ Q) (a || b)
Decides-or true b (Decides.holds p) q = Decides.holds (inl p)
Decides-or false true (Decides.fails n) (Decides.holds q) = Decides.holds (inr q)
Decides-or false false (Decides.fails n) (Decides.fails m) =
    Decides.fails (λ either. elim either [ inl p ↦ n p | inr q ↦ m q ])
