-- ===== src/Chain/Weights/Total.antt =====
-- chain/weights.py: the quantised weights add up to the total.
use microtensor_subnet.Base.{
  ℕ, ◌+◌, ◌-◌, ◌≤◌, ◌<◌, ◌≡◌, ◌≢◌, refl, sym, ◌∙◌, true, List, [], ◌∷◌, ok, ltb, leb, eqb, map,
  keep, take, length, sum_of, if◌then◌else◌, arith,
}
use microtensor_subnet.Base.Int.{sub_ℕ}
use microtensor_subnet.Base.Floats.{Floats}
use microtensor_subnet.Base.Sorting.{sort, sum_of-sort, length-sort}
use microtensor_subnet.Chain.Weights.{
  u16_max, WeightVector, among, checked_vector, sum, Part, slice_to, positive, parts_of,
  raised_uids, rest_le, with_raise, vector_of, raised_parts, quantise_positive, quantise_kept,
  quantise_weights,
}
use microtensor_subnet.Chain.Weights.Counted.{
  le→leb, IsUnique, sort-IsUnique, count-take, sum_of-map, length-map, map-IsUnique, sum_of-add,
  sum_of-filled, keep-IsUnique, repeats-IsUnique, any-large,
}

slice_to-sub :
    {A : Type 0} (total floors : ℕ) (xs : List A)
    → floors ≤ total
    → slice_to (sub_ℕ total floors) xs ≡ take (total - floors) xs
slice_to-sub total floors xs h = rw (le→leb floors total h, if◌then◌else◌) refl

module _ {F : Type 0} (f : Floats F) where
  -- What rounding down leaves of the total is at most one for each part.
  pub record IsRounded (total : ℕ) (parts : List (Part F)) : Type 0 where
    pub below : sum_of (λ p. p.value) parts ≤ total
    pub near : total ≤ sum_of (λ p. p.value) parts + length parts

  raised_parts-total :
      (total : ℕ) (parts : List (Part F))
      → IsUnique (λ p. p.uid) parts
      → IsRounded total parts
      → sum_of (λ p. p.value) (raised_parts f total parts) ≡ total
  unfolding raised_uids
  raised_parts-total total parts unique r =
      let least = sort (rest_le f) parts in
      let missing = total - sum_of (λ p. p.value) parts in
      let uids = raised_uids f total parts in
      omega (
        arith,
        sum_of-map (with_raise f uids) (λ p. p.value) parts,
        sum_of-add (λ p. p.value) (λ p. if among p.uid uids then 1 else 0) parts,
        sum_of-sort (rest_le f) (λ p. if among p.uid uids then 1 else 0) parts,
        counted,
        r.below,
      )
    where
      counted :
          sum_of
            (λ p. if among p.uid (raised_uids f total parts) then 1 else 0)
            (sort (rest_le f) parts)
          ≡ total - sum_of (λ p. p.value) parts
      counted =
          rw (slice_to-sub total (sum_of (λ p. p.value) parts) (sort (rest_le f) parts) r.below) (
            count-take (λ p. p.uid) (total - sum_of (λ p. p.value) parts) (sort (rest_le f) parts)
              (sort-IsUnique (λ p. p.uid) (rest_le f) parts unique)
              (omega (arith, length-sort (rest_le f) parts, r.near)))

  parts_of-IsUnique :
      (total : ℕ) (weights : List (ℕ × F))
      → IsUnique (λ e. e.0) weights
      → IsUnique (λ p. p.uid) (parts_of f total weights)
  unfolding parts_of
  parts_of-IsUnique total weights unique =
      map-IsUnique _ (λ e. e.0) (λ p. p.uid) (sort (λ a b. leb a.0 b.0) weights) (λ e. refl)
        (sort-IsUnique (λ e. e.0) (λ a b. leb a.0 b.0) weights unique)

  -- Parts that add up to a total of sixteen bits make a vector that passes its checks.
  checked_vector-parts :
      (total : ℕ) (parts : List (Part F))
      → IsUnique (λ p. p.uid) parts
      → sum_of (λ p. p.value) parts ≡ total
      → total ≤ u16_max
      → (v : WeightVector) × (checked_vector (vector_of f parts) ≡ ok v)
        × (sum v.values ≡ total)
        × (length v.uids ≡ length v.values)
  unfolding checked_vector vector_of
  checked_vector-parts total parts unique whole small =
      let kept = keep (λ p. ltb 0 p.value) parts in
      (
        vector_of f parts,
        rw
            (
              lengths kept,
              repeats-IsUnique (λ p. p.uid) kept
                  (keep-IsUnique (λ p. p.uid) (λ p. ltb 0 p.value) parts unique),
              any-large (λ p. p.value) kept (kept_small),
            )
            refl,
        sum_of-map (λ p. p.value) (λ v. v) kept ∙ sum_of-filled (λ p. p.value) parts ∙ whole,
        length-map (λ p. p.uid) kept ∙ sym (length-map (λ p. p.value) kept),
      )
    where
      lengths :
          (xs : List (Part F))
          → eqb (length (map (λ p. p.uid) xs)) (length (map (λ p. p.value) xs)) ≡ true
      lengths xs = ground (arith, length-map (λ p. p.uid) xs, length-map (λ p. p.value) xs)

      kept_small : sum_of (λ p. p.value) (keep (λ p. ltb 0 p.value) parts) ≤ u16_max
      kept_small = omega (arith, sum_of-filled (λ p. p.value) parts)

  kept_or_none :
      (total : ℕ) (weights : List (ℕ × F))
      → weights ≢ []
      → 0 < total
      → quantise_kept f total weights ≡ quantise_positive f total weights
  unfolding quantise_kept
  kept_or_none total [] some_weight h = absurd (some_weight refl)
  kept_or_none total (e ∷ weights) some_weight h = ground arith

  -- Weights of which some is positive are quantised to a vector that passes its checks and adds up to the
  -- total exactly, if the total is positive and of sixteen bits, no uid is given twice, and what rounding
  -- down leaves of the total is at most one for each uid.
  pub quantise_weights-total :
      (weights : List (ℕ × F)) (total : ℕ)
      → positive f weights ≢ []
      → 0 < total
      → total ≤ u16_max
      → IsUnique (λ e. e.0) weights
      → IsRounded total (parts_of f total (positive f weights))
      → (v : WeightVector) × (quantise_weights f weights total ≡ ok v)
        × (sum v.values ≡ total)
        × (length v.uids ≡ length v.values)
  unfolding quantise_weights quantise_positive
  quantise_weights-total weights total some_weight h small unique rounded =
      let parts = parts_of f total (positive f weights) in
      let once =
        parts_of-IsUnique total (positive f weights)
          (keep-IsUnique (λ e. e.0) (λ e. f.lt (f.of_ℕ 0) e.1) weights unique) in
      let (v, checked, whole, paired) =
        checked_vector-parts total (raised_parts f total parts)
          (map-IsUnique (with_raise f (raised_uids f total parts)) (λ p. p.uid) (λ p. p.uid) parts
            (λ p. refl) once)
          (raised_parts-total total parts once rounded) small in
      (v, kept_or_none total (positive f weights) some_weight h ∙ checked, whole, paired)
