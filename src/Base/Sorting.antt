-- ===== src/Base/Sorting.antt =====
-- The stable sort of `Array.prototype.sort` and of an SQL `order by`, as an insertion sort over a
-- test `leq x y` that says that `x` may stand before `y`.
use mathlib.Core.Path.{◌≡◌, subst}
use mathlib.Core.Option.{none, some}
use mathlib.Core.Logic.{inl, inr}
use mathlib.Core.Bool.{Bool, true, false}
use mathlib.Core.List.{List, [], ◌∷◌, Perm}
use mathlib.Core.List.Perm
use native.Mathlib.Omega.{arith}
use cash_count.Base.Tests.{if◌then◌else◌, Bool-cases}
use cash_count.Base.Lists.{All, All-map, head?}

module _ {ℓ} {A : Type ℓ} where
  unfoldable pub insert_by : (A → A → Bool) → A → List A → List A
  insert_by leq x [] = x ∷ []
  insert_by leq x (y ∷ ys) = if leq x y then x ∷ y ∷ ys else y ∷ insert_by leq x ys

  unfoldable pub sort_by : (A → A → Bool) → List A → List A
  unfolding insert_by
  sort_by leq [] = []
  sort_by leq (x ∷ xs) = insert_by leq x (sort_by leq xs)

  -- Each element may stand before all that follow it.
  abbrev pub Sorted : (A → A → Bool) → List A → Type 0
  Sorted leq [] = Unit
  Sorted leq (x ∷ xs) = All (λ y. leq x y ≡ true) xs × Sorted leq xs

  -- The same for a relation.
  abbrev pub Ordered {κ} : (A → A → Type κ) → List A → Type κ
  Ordered R [] = Unit
  Ordered R (x ∷ xs) = All (R x) xs × Ordered R xs

  pub Sorted-Ordered {κ} :
      (leq : A → A → Bool) (R : A → A → Type κ) (meaning : (x y : A) → leq x y ≡ true → R x y)
      (xs : List A)
      → Sorted leq xs
      → Ordered R xs
  Sorted-Ordered leq R meaning [] s = tt
  Sorted-Ordered leq R meaning (x ∷ xs) s =
      (All-map (λ y h. meaning x y h) xs s.0, Sorted-Ordered leq R meaning xs s.1)

module _ {ℓ} {A : Type ℓ} (leq : A → A → Bool) where
  All-insert_by {κ} :
      (P : A → Type κ) (x : A) (xs : List A) → P x → All P xs → All P (insert_by leq x xs)
  unfolding insert_by
  All-insert_by P x [] p h = (p, tt)
  All-insert_by P x (y ∷ ys) p h = ground (arith, All-insert_by P x ys p h.1)

  All-of-insert_by {κ} :
      (P : A → Type κ) (x : A) (xs : List A) → All P (insert_by leq x xs) → P x × All P xs
  unfolding insert_by
  All-of-insert_by P x [] h = h
  All-of-insert_by P x (y ∷ ys) h = elim (Bool-cases (leq x y)) [
    | inl e ↦ rw e at h
    | inr e ↦
        let k : All P (y ∷ insert_by leq x ys) = rw e at h in
        let rest = All-of-insert_by P x ys k.1 in (rest.0, (k.0, rest.1))
  ]

  -- What holds of every element holds of every element of the sorted list, and back.
  pub All-sort_by {κ} : (P : A → Type κ) (xs : List A) → All P xs → All P (sort_by leq xs)
  unfolding sort_by
  All-sort_by P [] h = tt
  All-sort_by P (x ∷ xs) h = All-insert_by P x (sort_by leq xs) h.0 (All-sort_by P xs h.1)

  pub All-of-sort_by {κ} : (P : A → Type κ) (xs : List A) → All P (sort_by leq xs) → All P xs
  unfolding sort_by
  All-of-sort_by P [] h = tt
  All-of-sort_by P (x ∷ xs) h =
      let rest = All-of-insert_by P x (sort_by leq xs) h in (rest.0, All-of-sort_by P xs rest.1)

  insert_by-perm : (x : A) (xs : List A) → Perm (insert_by leq x xs) (x ∷ xs)
  unfolding insert_by
  insert_by-perm x [] = Perm.refl (x ∷ [])
  insert_by-perm x (y ∷ ys) = elim (Bool-cases (leq x y)) [
    | inl e ↦ rw e (Perm.refl (x ∷ y ∷ ys))
    | inr e ↦ rw e (Perm.trans (Perm.cons y (insert_by-perm x ys)) (Perm.swap x y ys))
  ]

  pub sort_by-perm : (xs : List A) → Perm (sort_by leq xs) xs
  unfolding sort_by
  sort_by-perm [] = Perm.refl []
  sort_by-perm (x ∷ xs) =
      Perm.trans (insert_by-perm x (sort_by leq xs)) (Perm.cons x (sort_by-perm xs))

module _ {ℓ} {A : Type ℓ} (leq : A → A → Bool)
    (total : (x y : A) → leq x y ≡ false → leq y x ≡ true)
    (trans : (x y z : A) → leq x y ≡ true → leq y z ≡ true → leq x z ≡ true) where
  insert_by-Sorted : (x : A) (xs : List A) → Sorted leq xs → Sorted leq (insert_by leq x xs)
  unfolding insert_by
  insert_by-Sorted x [] h = (tt, tt)
  insert_by-Sorted x (y ∷ ys) h = elim (Bool-cases (leq x y)) [
    | inl e ↦ rw e ((e, All-map (λ z k. trans x y z e k) ys h.0), h)
    | inr e ↦ rw e (All-insert_by leq _ x ys (total x y e) h.0, insert_by-Sorted x ys h.1)
  ]

  -- With a total and transitive order the result is sorted.
  pub sort_by-Sorted : (xs : List A) → Sorted leq (sort_by leq xs)
  unfolding sort_by
  sort_by-Sorted [] = tt
  sort_by-Sorted (x ∷ xs) = insert_by-Sorted x (sort_by leq xs) (sort_by-Sorted xs)

  -- Its head may stand before every element of the list.
  pub sort_by-first :
      (refl_leq : (x : A) → leq x x ≡ true) (xs : List A) {x : A}
      → head? (sort_by leq xs) ≡ some x
      → All (λ y. leq x y ≡ true) xs
  sort_by-first refl_leq xs {x} h =
      All-of-sort_by leq (λ y. leq x y ≡ true) xs (from_head (sort_by leq xs) h (sort_by-Sorted xs))
    where
      from_head : (ys : List A) → head? ys ≡ some x → Sorted leq ys → All (λ y. leq x y ≡ true) ys
      from_head [] e s = absurd (cc)
      from_head (y ∷ ys) e s =
          subst (λ z. All (λ y. leq z y ≡ true) (y ∷ ys)) (cc) (refl_leq y, s.0)

module _ {ℓ} {A : Type ℓ} (leq : A → A → Bool) where
  -- Only the empty list has no head when sorted.
  pub sort_by-none {κ} : (P : A → Type κ) (xs : List A) → head? (sort_by leq xs) ≡ none → All P xs
  sort_by-none P xs h = All-of-sort_by leq P xs (from_none (sort_by leq xs) h)
    where
      from_none : (ys : List A) → head? ys ≡ none → All P ys
      from_none [] e = tt
      from_none (y ∷ ys) e = absurd (cc)
