-- ===== src/Serving/Settle/Score.antt =====
-- The score of served requests, against whole-number arithmetic.
use native.Mathlib.Nat.{mul-div-le, le-div_iff_mul-le, mul-le-mul, mul-le-mul_left}
use native.Mathlib.Nat.{le_of_mul-le-mul_left, div-mul-le_self}
use microtensor_subnet.Base.{ℕ, ◌+◌, ◌*◌, ◌/◌, ◌≤◌, ◌<◌, ◌≡◌, ok, raised, arith, ap, ◌⊎◌, inl, inr}
use microtensor_subnet.Serving.Settle.{not_a_rate, score_of}

-- With probes, the score is the weight of the requests (one inside the term, one half outside)
-- times the pass rate in thousandths, rounded down.
pub score_of-probed :
    (inside outside probes passes : ℕ)
    → 0 < probes
    → passes ≤ probes
    → score_of inside outside probes passes
      ≡ ok ((2 * inside + outside) * passes * 1000 / (2 * probes))
unfolding score_of
score_of-probed inside outside probes passes some_probes fits = ground arith

-- Without probes every request counts in full.
score_of-unprobed :
    (inside outside : ℕ) → score_of inside outside 0 0 ≡ ok (1000 * inside + 500 * outside)
unfolding score_of
score_of-unprobed inside outside = ap ok (omega arith)

-- More passes than probes are refused.
score_of-refused :
    (inside outside probes passes : ℕ)
    → probes < passes
    → score_of inside outside probes passes ≡ raised not_a_rate
unfolding score_of
score_of-refused inside outside probes passes h = ground arith

div_mono : {q a b : ℕ} → 0 < q → a ≤ b → a / (2 * q) ≤ b / (2 * q)
div_mono {q} {a} {b} h le =
    (le-div_iff_mul-le (omega arith)).1 (omega (arith, div-mul-le_self a (2 * q)))

-- What a successful call returned, on both branches.
pub score_of-value :
    (inside outside probes passes : ℕ) {s : ℕ}
    → score_of inside outside probes passes ≡ ok s
    → (passes ≤ probes)
      × ((probes ≡ 0) × (s ≡ 1000 * inside + 500 * outside)
          ⊎ (0 < probes) × (s ≡ (2 * inside + outside) * passes * 1000 / (2 * probes)))
unfolding score_of
score_of-value inside outside probes passes h = ground arith

-- A score never passes the full weight of the requests that were served.
pub score_of_bound :
    (inside outside probes passes : ℕ) {s : ℕ}
    → score_of inside outside probes passes ≡ ok s
    → (passes ≤ probes) × (2 * s ≤ 1000 * (2 * inside + outside))
score_of_bound inside outside probes passes {s} h =
    let (fits, value) = score_of-value inside outside probes passes h in
    elim value [
      | inl (none_probed, v) ↦ (fits, omega arith)
      | inr (probed, v) ↦ (
        fits,
        le_of_mul-le-mul_left {k = probes}
            (omega (
              arith,
              mul-div-le ((2 * inside + outside) * passes * 1000) (2 * probes),
              mul-le-mul_left (2 * inside + outside) fits,
              ap (λ (n : ℕ). 2 * probes * n) v,
            ))
            probed,
      )
    ]

-- More passes or more requests never lower the score, at the same number of probes.
pub score_of_mono :
    (inside outside probes passes inside' outside' passes' : ℕ) {s t : ℕ}
    → inside ≤ inside'
    → outside ≤ outside'
    → passes ≤ passes'
    → score_of inside outside probes passes ≡ ok s
    → score_of inside' outside' probes passes' ≡ ok t
    → s ≤ t
score_of_mono inside outside probes passes inside' outside' passes' a b c h k =
    elim (score_of-value inside outside probes passes h).1 [
      | inl (none_probed, v) ↦ elim (score_of-value inside' outside' probes passes' k).1 [
        | inl (_, w) ↦ omega arith
        | inr (probed, _) ↦ absurd (omega arith)
      ]
      | inr (probed, v) ↦ elim (score_of-value inside' outside' probes passes' k).1 [
        | inl (none_probed, _) ↦ absurd (omega arith)
        | inr (_, w) ↦ rw (v, w) (div_mono probed (omega (arith, mul-le-mul weights c)))
      ]
    ]
  where
    weights : 2 * inside + outside ≤ 2 * inside' + outside'
    weights = omega arith
