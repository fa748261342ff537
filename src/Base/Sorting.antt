-- ===== src/Base/Sorting.antt =====
-- `sorted(xs, key=...)`: a stable insertion sort by a test of order.
use Prim.Native.Nat.{ℕ, ◌+◌, suc}
use mathlib.Core.Bool.{Bool}
use mathlib.Core.Path.{◌≡◌, refl}
use mathlib.Core.Logic.{inl, inr}
use mathlib.Core.List.Perm
use mathlib.Core.List.{List, [], ◌∷◌, Perm}
use native.Mathlib.Omega.{arith}
use microtensor_subnet.Base.Tests.{if◌then◌else◌, Bool-cases}
use microtensor_subnet.Base.Lists.{sum_of, length, All}

module _ {ℓ} {A : Type ℓ} (le : A → A → Bool) where
  unfoldable pub insert : A → List A → List A
  insert x [] = x ∷ []
  insert x (y ∷ ys) = let rest = insert x ys in if le x y then x ∷ y ∷ ys else y ∷ rest

  unfoldable pub sort : List A → List A
  unfolding insert
  sort [] = []
  sort (x ∷ xs) = insert x (sort xs)

  insert-perm : (x : A) (ys : List A) → Perm (insert x ys) (x ∷ ys)
  unfolding insert
  insert-perm x [] = Perm.refl _
  insert-perm x (y ∷ ys) = ground (
    arith,
    Perm.refl (x ∷ y ∷ ys),
    Perm.trans (Perm.cons y (insert-perm x ys)) (Perm.swap x y ys),
  )

  pub sort-perm : (xs : List A) → Perm (sort xs) xs
  unfolding sort
  sort-perm [] = Perm.refl _
  sort-perm (x ∷ xs) = Perm.trans (insert-perm x (sort xs)) (Perm.cons x (sort-perm xs))

  sum_of-insert : (f : A → ℕ) (x : A) (ys : List A) → sum_of f (insert x ys) ≡ f x + sum_of f ys
  unfolding insert
  sum_of-insert f x [] = refl
  sum_of-insert f x (y ∷ ys) = ground (arith, sum_of-insert f x ys)

  pub sum_of-sort : (f : A → ℕ) (xs : List A) → sum_of f (sort xs) ≡ sum_of f xs
  unfolding sort
  sum_of-sort f [] = refl
  sum_of-sort f (x ∷ xs) = omega (arith, sum_of-insert f x (sort xs), sum_of-sort f xs)

  length-insert : (x : A) (ys : List A) → length (insert x ys) ≡ suc (length ys)
  unfolding insert
  length-insert x [] = refl
  length-insert x (y ∷ ys) = ground (arith, length-insert x ys)

  pub length-sort : (xs : List A) → length (sort xs) ≡ length xs
  unfolding sort
  length-sort [] = refl
  length-sort (x ∷ xs) = omega (arith, length-insert x (sort xs), length-sort xs)

  All-insert : (P : A → Type 0) (x : A) (ys : List A) → All P (insert x ys) → P x × All P ys
  unfolding insert
  All-insert P x [] h = h
  All-insert P x (y ∷ ys) h = elim (Bool-cases (le x y)) [
    | inl e ↦ rw (e, if◌then◌else◌) at h
    | inr e ↦
        let (py, rest) : P y × All P (insert x ys) = rw (e, if◌then◌else◌) at h in
        let (px, pys) = All-insert P x ys rest in (px, (py, pys))
  ]

  -- What holds of all elements in sorted order holds of all elements.
  pub All-sort : (P : A → Type 0) (xs : List A) → All P (sort xs) → All P xs
  unfolding sort
  All-sort P [] h = tt
  All-sort P (x ∷ xs) h = let (px, rest) = All-insert P x (sort xs) h in (px, All-sort P xs rest)

  pub insert-All : (P : A → Type 0) (x : A) (ys : List A) → P x → All P ys → All P (insert x ys)
  unfolding insert
  insert-All P x [] px h = (px, tt)
  insert-All P x (y ∷ ys) px (py, pys) = elim (Bool-cases (le x y)) [
    | inl e ↦ rw (e, if◌then◌else◌) (px, (py, pys))
    | inr e ↦ rw (e, if◌then◌else◌) (py, insert-All P x ys px pys)
  ]

  pub sort-All : (P : A → Type 0) (xs : List A) → All P xs → All P (sort xs)
  unfolding sort
  sort-All P [] h = tt
  sort-All P (x ∷ xs) (px, rest) = insert-All P x (sort xs) px (sort-All P xs rest)
