-- ===== src/Chain/Weights/Counted.antt =====
-- chain/weights.py: counting in lists with unique keys.
use microtensor_subnet.Base.{
  ℕ, zero, suc, ◌+◌, ◌≤◌, ◌≡◌, refl, inl, inr, Bool, true, false, List, [], ◌∷◌, ltb, leb, eqb,
  ◌||◌, map, keep, any, take, length, sum_of, if◌then◌else◌, arith, All, Bool-cases,
}
use microtensor_subnet.Base.Sorting.{insert, insert-All, sort, sort-All}
use microtensor_subnet.Chain.Weights.{u16_max, among, repeats}

module _ {A : Type 0} (key : A → ℕ) where
  -- No key stands twice.
  abbrev pub IsUnique : List A → Type 0
  IsUnique [] = Unit
  IsUnique (x ∷ xs) = All (λ y. eqb (key x) (key y) ≡ false) xs × IsUnique xs

  insert-IsUnique :
      (le : A → A → Bool) (x : A) (ys : List A)
      → All (λ y. eqb (key x) (key y) ≡ false) ys
      → IsUnique ys
      → IsUnique (insert le x ys)
  unfolding insert
  insert-IsUnique le x [] h u = (tt, tt)
  insert-IsUnique le x (y ∷ ys) (ne, h) (fresh, u) = elim (Bool-cases (le x y)) [
    | inl e ↦ rw (e, if◌then◌else◌) ((ne, h), (fresh, u))
    | inr e ↦
        rw (e, if◌then◌else◌)
          (
            insert-All le (λ z. eqb (key y) (key z) ≡ false) x ys (ground arith) fresh,
            insert-IsUnique le x ys h u,
          )
  ]

  pub sort-IsUnique : (le : A → A → Bool) (xs : List A) → IsUnique xs → IsUnique (sort le xs)
  unfolding sort
  sort-IsUnique le [] h = tt
  sort-IsUnique le (x ∷ xs) (fresh, h) =
      insert-IsUnique le x (sort le xs) (sort-All le (λ y. eqb (key x) (key y) ≡ false) xs fresh)
        (sort-IsUnique le xs h)

  sum_of-same : (g h : A → ℕ) (xs : List A) → All (λ x. g x ≡ h x) xs → sum_of g xs ≡ sum_of h xs
  sum_of-same g h [] e = refl
  sum_of-same g h (x ∷ xs) (this, e) = omega (arith, this, sum_of-same g h xs e)

  sum_of-zero : (xs : List A) → sum_of (λ x. 0) xs ≡ 0
  sum_of-zero [] = refl
  sum_of-zero (x ∷ xs) = omega (arith, sum_of-zero xs)

  -- The first of a list, counted in the list.
  pub count-take :
      (n : ℕ) (xs : List A)
      → IsUnique xs
      → n ≤ length xs
      → sum_of (λ x. if among (key x) (map key (take n xs)) then 1 else 0) xs ≡ n
  count-take zero xs u h = sum_of-zero xs
  count-take (suc n) [] u h = absurd (omega arith)
  count-take (suc n) (x ∷ xs) (fresh, u) h = omega (
    arith,
    sum_of-same (λ z. if eqb (key x) (key z) || among (key z) (map key (take n xs)) then 1 else 0)
        (λ z. if among (key z) (map key (take n xs)) then 1 else 0) xs (skipped xs fresh),
    first,
    count-take n xs u (omega arith),
  )
    where
      first :
          ◌≡◌ {A = ℕ}
            (if eqb (key x) (key x) || among (key x) (map key (take n xs)) then 1 else 0)
            1
      first = ground arith

      skipped :
          (ys : List A)
          → All (λ y. eqb (key x) (key y) ≡ false) ys
          → All
              (λ z.
                ◌≡◌ {A = ℕ}
                  (if eqb (key x) (key z) || among (key z) (map key (take n xs)) then 1 else 0)
                  (if among (key z) (map key (take n xs)) then 1 else 0))
              ys
      skipped [] q = tt
      skipped (y ∷ ys) (ne, q) = (rw ne refl, skipped ys q)

module _ {A B : Type 0} (g : A → B) where
  pub sum_of-map : (h : B → ℕ) (xs : List A) → sum_of h (map g xs) ≡ sum_of (λ x. h (g x)) xs
  sum_of-map h [] = refl
  sum_of-map h (x ∷ xs) = omega (arith, sum_of-map h xs)

  pub length-map : (xs : List A) → length (map g xs) ≡ length xs
  length-map [] = refl
  length-map (x ∷ xs) = omega (arith, length-map xs)

  pub map-IsUnique :
      (key : A → ℕ) (key' : B → ℕ) (xs : List A)
      → ((x : A) → key' (g x) ≡ key x)
      → IsUnique key xs
      → IsUnique key' (map g xs)
  map-IsUnique key key' [] same h = tt
  map-IsUnique key key' (x ∷ xs) same (fresh, h) = (apart xs fresh, map-IsUnique key key' xs same h)
    where
      apart :
          (ys : List A)
          → All (λ y. eqb (key x) (key y) ≡ false) ys
          → All (λ y. eqb (key' (g x)) (key' y) ≡ false) (map g ys)
      apart [] q = tt
      apart (y ∷ ys) (ne, q) = (rw (same x, same y) ne, apart ys q)

module _ {A : Type 0} where
  pub sum_of-add :
      (g h : A → ℕ) (xs : List A) → sum_of (λ x. g x + h x) xs ≡ sum_of g xs + sum_of h xs
  sum_of-add g h [] = refl
  sum_of-add g h (x ∷ xs) = omega (arith, sum_of-add g h xs)

  pub sum_of-filled :
      (g : A → ℕ) (xs : List A) → sum_of g (keep (λ x. ltb 0 (g x)) xs) ≡ sum_of g xs
  sum_of-filled g [] = refl
  sum_of-filled g (x ∷ xs) = ground (arith, sum_of-filled g xs)

  All-keep : (P : A → Type 0) (p : A → Bool) (xs : List A) → All P xs → All P (keep p xs)
  All-keep P p [] h = tt
  All-keep P p (x ∷ xs) (this, h) = elim (Bool-cases (p x)) [
    | inl e ↦ rw (e, if◌then◌else◌) (this, All-keep P p xs h)
    | inr e ↦ rw (e, if◌then◌else◌) (All-keep P p xs h)
  ]

  pub keep-IsUnique :
      (key : A → ℕ) (p : A → Bool) (xs : List A) → IsUnique key xs → IsUnique key (keep p xs)
  keep-IsUnique key p [] h = tt
  keep-IsUnique key p (x ∷ xs) (fresh, h) = elim (Bool-cases (p x)) [
    | inl e ↦
        rw (e, if◌then◌else◌)
          (All-keep (λ y. eqb (key x) (key y) ≡ false) p xs fresh, keep-IsUnique key p xs h)
    | inr e ↦ rw (e, if◌then◌else◌) (keep-IsUnique key p xs h)
  ]

  -- A list of parts with the checks of a weight vector.
  absent-among :
      (key : A → ℕ) (k : ℕ) (xs : List A)
      → All (λ y. eqb k (key y) ≡ false) xs
      → among k (map key xs) ≡ false
  absent-among key k [] h = refl
  absent-among key k (x ∷ xs) (ne, h) = ground (arith, absent-among key k xs h)

  pub repeats-IsUnique :
      (key : A → ℕ) (xs : List A) → IsUnique key xs → repeats (map key xs) ≡ false
  repeats-IsUnique key [] h = refl
  repeats-IsUnique key (x ∷ xs) (fresh, h) =
      rw (absent-among key (key x) xs fresh) (repeats-IsUnique key xs h)

  pub any-large :
      (g : A → ℕ) (xs : List A)
      → sum_of g xs ≤ u16_max
      → any (λ v. ltb u16_max v) (map g xs) ≡ false
  any-large g [] h = refl
  any-large g (x ∷ xs) h = ground (arith, any-large g xs)

pub le→leb : (a b : ℕ) → a ≤ b → leb a b ≡ true
le→leb a b h = ground arith
