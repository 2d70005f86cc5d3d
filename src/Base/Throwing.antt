-- ===== src/Base/Throwing.antt =====
-- `filter` and `map` of an array with a function that may throw.
use mathlib.Core.Path.{◌≡◌, refl}
use mathlib.Core.Bool.{Bool, true, false}
use mathlib.Core.List.{List, [], ◌∷◌, map}
use cash_count.Base.Tests.{if◌then◌else◌}
use cash_count.Base.Lists.{All}
use cash_count.Base.Deciding.{Decides}
use cash_count.Base.Results.{Result, ok, ◌>>=◌}

-- The elements with a property, in their order.
pub data Selects {A : Type 0} (P : A → Type 0) : List A → List A → Type 0 where
  nothing : Selects P [] []
  keeps : {x : A} {xs ys : List A} → P x → Selects P xs ys → Selects P (x ∷ xs) (x ∷ ys)
  skips : {x : A} {xs ys : List A} → ¬ P x → Selects P xs ys → Selects P (x ∷ xs) ys

pub All-Selects :
    {A : Type 0} (P : A → Type 0) (Q : A → Type 0) {xs ys : List A}
    → Selects P xs ys
    → All Q xs
    → All Q ys
All-Selects P Q nothing h = tt
All-Selects P Q (keeps p s) h = (h.0, All-Selects P Q s h.1)
All-Selects P Q (skips p s) h = All-Selects P Q s h.1

module _ {E A : Type 0} where
  unfoldable pub filter_ok : (A → Result E Bool) → List A → Result E (List A)
  filter_ok test [] = ok []
  filter_ok test (x ∷ xs) = do
    kept ← test x
    rest ← filter_ok test xs
    ok (if kept then x ∷ rest else rest)

  unfoldable pub map_ok : {B : Type 0} → (A → Result E B) → List A → Result E (List B)
  map_ok f [] = ok []
  map_ok f (x ∷ xs) = do y ← f x; rest ← map_ok f xs; ok (y ∷ rest)

  -- A test that always returns and decides a property keeps the elements with it.
  pub filter_ok-Selects :
      (P : A → Type 0) (test : A → Result E Bool) (xs : List A)
      → All (λ x. (b : Bool) × (test x ≡ ok b) × Decides (P x) b) xs
      → (ys : List A) × (filter_ok test xs ≡ ok ys) × Selects P xs ys
  unfolding filter_ok
  filter_ok-Selects P test [] h = ([], refl, nothing)
  filter_ok-Selects P test (x ∷ xs) h =
      let (ys, r, s) = filter_ok-Selects P test xs h.1 in step ys r s h.0.0 h.0.1 h.0.2
    where
      step :
          (ys : List A)
          → filter_ok test xs ≡ ok ys
          → Selects P xs ys
          → (b : Bool) → test x ≡ ok b
          → Decides (P x) b
          → (zs : List A) × (filter_ok test (x ∷ xs) ≡ ok zs) × Selects P (x ∷ xs) zs
      step ys r s true e (Decides.holds p) = (x ∷ ys, rw (e, r) refl, keeps p s)
      step ys r s false e (Decides.fails n) = (ys, rw (e, r) refl, skips n s)

  pub map_ok-map :
      {B : Type 0} (f : A → Result E B) (g : A → B) (xs : List A)
      → All (λ x. f x ≡ ok (g x)) xs
      → map_ok f xs ≡ ok (map g xs)
  unfolding map_ok
  map_ok-map f g [] h = refl
  map_ok-map f g (x ∷ xs) h = rw (h.0, map_ok-map f g xs h.1) refl
