-- ===== src/Base/Lists.antt =====
-- Lists measured by native numbers, tests over lists by Boolean functions, and the predicate that
-- holds of every element.
use Prim.Native.Nat.{ℕ, zero, suc, ◌+◌, ◌≤◌}
use mathlib.Core.Path.{◌≡◌, refl, sym, subst}
use mathlib.Core.Logic.{inl, inr}
use mathlib.Core.Bool.{Bool, true, false, ◌&&◌, ◌||◌}
use mathlib.Core.List.{List, [], ◌∷◌, ◌++◌, Memᴰ}
use mathlib.Core.Option.{Option, none, some}
use native.Mathlib.Omega.{arith}
use cash_count.Base.Tests.{if◌then◌else◌, Bool-cases}

module _ {ℓ} {A : Type ℓ} where
  abbrev pub length : List A → ℕ
  length [] = 0
  length (x ∷ xs) = suc (length xs)

  abbrev pub take : ℕ → List A → List A
  take zero xs = []
  take (suc n) [] = []
  take (suc n) (x ∷ xs) = x ∷ take n xs

  -- `every` and `some` of a JavaScript array.
  abbrev pub drop : ℕ → List A → List A
  drop zero xs = xs
  drop (suc n) [] = []
  drop (suc n) (x ∷ xs) = drop n xs

  abbrev pub every : (A → Bool) → List A → Bool
  every p [] = true
  every p (x ∷ xs) = p x && every p xs

  abbrev pub exists : (A → Bool) → List A → Bool
  exists p [] = false
  exists p (x ∷ xs) = p x || exists p xs

  abbrev pub filter : (A → Bool) → List A → List A
  filter p [] = []
  filter p (x ∷ xs) = let rest = filter p xs in if p x then x ∷ rest else rest

  abbrev pub head? : List A → Option A
  head? [] = none
  head? (x ∷ xs) = some x

  abbrev pub All {κ} : (A → Type κ) → List A → Type κ
  All P [] = Unit
  All P (x ∷ xs) = P x × All P xs

  pub All-map {κ μ} :
      {P : A → Type κ} {Q : A → Type μ}
      → ((x : A) → P x → Q x)
      → (xs : List A) → All P xs
      → All Q xs
  All-map f [] h = tt
  All-map f (x ∷ xs) h = (f x h.0, All-map f xs h.1)

  pub All-filter {κ} :
      (P : A → Type κ) (p : A → Bool) (xs : List A) → All P xs → All P (filter p xs)
  All-filter P p [] h = tt
  All-filter P p (x ∷ xs) h = ground (arith, All-filter P p xs h.1)

  pub All-filter_test : (p : A → Bool) (xs : List A) → All (λ x. p x ≡ true) (filter p xs)
  All-filter_test p [] = tt
  All-filter_test p (x ∷ xs) = ground (arith, All-filter_test p xs)

  pub All-of-filter {κ} :
      (P : A → Type κ) (p : A → Bool) (xs : List A)
      → All P (filter p xs)
      → All (λ x. p x ≡ true → P x) xs
  All-of-filter P p [] h = tt
  All-of-filter P p (x ∷ xs) h = elim (Bool-cases (p x)) [
    | inl e ↦ let k : All P (x ∷ filter p xs) = rw e at h in ((λ _. k.0), All-of-filter P p xs k.1)
    | inr e ↦
        let k : All P (filter p xs) = rw e at h in ((λ f. absurd (cc)), All-of-filter P p xs k)
  ]

  pub All-both {κ μ} :
      (P : A → Type κ) (Q : A → Type μ) (xs : List A)
      → All P xs
      → All Q xs
      → All (λ x. P x × Q x) xs
  All-both P Q [] h k = tt
  All-both P Q (x ∷ xs) h k = ((h.0, k.0), All-both P Q xs h.1 k.1)

  pub All-take {κ} : (P : A → Type κ) (n : ℕ) (xs : List A) → All P xs → All P (take n xs)
  All-take P zero xs h = tt
  All-take P (suc n) [] h = tt
  All-take P (suc n) (x ∷ xs) h = (h.0, All-take P n xs h.1)

  pub All-head {κ} : (P : A → Type κ) (xs : List A) {a : A} → All P xs → head? xs ≡ some a → P a
  All-head P [] h e = absurd (cc)
  All-head P (x ∷ xs) h e = subst P (cc) h.0

  pub All-of-Memᴰ {κ} : (P : A → Type κ) (xs : List A) {a : A} → All P xs → Memᴰ a xs → P a
  All-of-Memᴰ P [] h m = elim m [ ]
  All-of-Memᴰ P (x ∷ xs) h (Memᴰ.head e) = subst P (sym e) h.0
  All-of-Memᴰ P (x ∷ xs) h (Memᴰ.tail m) = All-of-Memᴰ P xs h.1 m

  All-Memᴰ_tail : (x : A) (xs ys : List A) → All (λ a. Memᴰ a xs) ys → All (λ a. Memᴰ a (x ∷ xs)) ys
  All-Memᴰ_tail x xs [] h = tt
  All-Memᴰ_tail x xs (y ∷ ys) h = (Memᴰ.tail h.0, All-Memᴰ_tail x xs ys h.1)

  pub All-Memᴰ : (xs : List A) → All (λ a. Memᴰ a xs) xs
  All-Memᴰ [] = tt
  All-Memᴰ (x ∷ xs) = (Memᴰ.head refl, All-Memᴰ_tail x xs xs (All-Memᴰ xs))

  -- A test that holds of some element.
  pub exists_witness :
      (p : A → Bool) (xs : List A) → exists p xs ≡ true → (a : A) × Memᴰ a xs × (p a ≡ true)
  exists_witness p [] h = absurd (cc)
  exists_witness p (x ∷ xs) h = elim (Bool-cases (p x)) [
    | inl e ↦ (x, Memᴰ.head refl, e)
    | inr e ↦ let (a, m, k) = exists_witness p xs (ground arith) in (a, Memᴰ.tail m, k)
  ]

  pub exists_of_Memᴰ :
      (p : A → Bool) (xs : List A) {a : A} → Memᴰ a xs → p a ≡ true → exists p xs ≡ true
  exists_of_Memᴰ p [] m h = elim m [ ]
  exists_of_Memᴰ p (x ∷ xs) (Memᴰ.head e) h =
      let k : p x ≡ true = subst (λ z. p z ≡ true) e h in rw k
  exists_of_Memᴰ p (x ∷ xs) (Memᴰ.tail m) h = let k = exists_of_Memᴰ p xs m h in ground (arith, k)

  -- The first element that passes a test, if one does.
  pub head-filter :
      (p : A → Bool) (xs : List A)
      → exists p xs ≡ true
      → (a : A) × (head? (filter p xs) ≡ some a) × Memᴰ a xs × (p a ≡ true)
  head-filter p [] h = absurd (cc)
  head-filter p (x ∷ xs) h = elim (Bool-cases (p x)) [
    | inl e ↦ (x, rw e, Memᴰ.head refl, e)
    | inr e ↦ let (a, k, m, t) = head-filter p xs (ground arith) in (a, rw e k, Memᴰ.tail m, t)
  ]

  pub head-filter-none :
      (p : A → Bool) (xs : List A) → exists p xs ≡ false → head? (filter p xs) ≡ none
  head-filter-none p [] h = refl
  head-filter-none p (x ∷ xs) h =
      let k = head-filter-none p xs (ground arith) in let e : p x ≡ false = ground arith in rw e k

  -- Two lists of one length, related place by place.
  pub data Pointwise {κ} (R : A → A → Type κ) : List A → List A → Type (ℓ ⊔ κ) where
    done : Pointwise R [] []
    also : {x y : A} {xs ys : List A} → R x y → Pointwise R xs ys → Pointwise R (x ∷ xs) (y ∷ ys)

  pub length-append : (xs ys : List A) → length (xs ++ ys) ≡ length xs + length ys
  length-append [] ys = omega arith
  length-append (x ∷ xs) ys = omega (arith, length-append xs ys)

  pub length-filter-le : (p : A → Bool) (xs : List A) → length (filter p xs) ≤ length xs
  length-filter-le p [] = omega arith
  length-filter-le p (x ∷ xs) = ground (arith, length-filter-le p xs)
