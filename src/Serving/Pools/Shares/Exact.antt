-- ===== src/Serving/Pools/Shares/Exact.antt =====
-- `_shares` gives out exactly what it is given, in proportion.
use native.Mathlib.Nat.{mul-div-le, zero-div, le_of_mul-le-mul_left}
use microtensor_subnet.Base.{
  ℕ, ◌+◌, ◌-◌, ◌*◌, ◌/◌, ◌≤◌, ◌<◌, ◌≡◌, String, List, [], ◌∷◌, arith, sum_of, ◌==◌, if◌then◌else◌,
}
use microtensor_subnet.Base.Dict.{
  Dict, get_or, add_at, total, total-add_at, total-nil, get_or-add_at, get_or-nil,
}
use microtensor_subnet.Serving.Settle.{Settled}
use microtensor_subnet.Serving.Pools.Shares.{
  identity, totals_of, proportion, largest, give_rest, shares_of,
}

total-totals_of :
    (rows : List Settled) (d : Dict ℕ)
    → total (totals_of rows d) ≡ total d + sum_of (λ row. row.score) rows
unfolding totals_of
total-totals_of [] d = omega arith
total-totals_of (row ∷ rows) d = omega (
  arith,
  total-totals_of rows (add_at (identity row) row.score d),
  total-add_at (identity row) row.score d,
)

total-proportion-le :
    (serving whole : ℕ) (d : Dict ℕ)
    → whole * total (proportion serving whole d) ≤ serving * total d
unfolding proportion total
total-proportion-le serving whole [] = omega arith
total-proportion-le serving whole ((key, value) ∷ rest) =
    omega (arith, mul-div-le (serving * value) whole, total-proportion-le serving whole rest)

total-give_rest :
    (rest : ℕ) (totals shares : Dict ℕ)
    → 0 < total totals
    → total (give_rest rest totals shares) ≡ total shares + rest
unfolding give_rest total
total-give_rest rest [] shares h = absurd (omega arith)
total-give_rest rest (e ∷ totals) shares h = total-add_at (largest e totals).0 rest shares

total-proportion-le_serving :
    (serving : ℕ) (d : Dict ℕ) → 0 < total d → total (proportion serving (total d) d) ≤ serving
total-proportion-le_serving serving d h =
    le_of_mul-le-mul_left {k = total d} (omega (arith, total-proportion-le serving (total d) d)) h

-- What is paid for scores is given out to the last unit.
pub total-shares_of :
    (serving : ℕ) (earned : List Settled)
    → 0 < sum_of (λ row. row.score) earned
    → total (shares_of serving earned) ≡ serving
unfolding shares_of
total-shares_of serving earned h =
    let t = totals_of earned [] in
    let shares = proportion serving (total t) t in
    ground (
      arith,
      total-nil,
      total-totals_of earned [],
      total-proportion-le_serving serving t,
      total-give_rest (serving - total shares) t shares,
    )

-- Nothing is given out beyond what is paid.
pub total-shares_of-le :
    (serving : ℕ) (earned : List Settled) → total (shares_of serving earned) ≤ serving
unfolding shares_of
total-shares_of-le serving earned =
    let t = totals_of earned [] in
    let shares = proportion serving (total t) t in
    ground (
      arith,
      total-nil,
      total-totals_of earned [],
      total-proportion-le_serving serving t,
      total-give_rest (serving - total shares) t shares,
    )

-- The score of one operator over all of its rows.
abbrev pub score_by : String → List Settled → ℕ
score_by key rows = sum_of (λ row. if row.operator == key then row.score else 0) rows

get_or-totals_of :
    (key : String) (rows : List Settled) (d : Dict ℕ)
    → get_or key 0 (totals_of rows d) ≡ get_or key 0 d + score_by key rows
unfolding totals_of
get_or-totals_of key [] d = omega arith
get_or-totals_of key (row ∷ rows) d = omega (
  arith,
  get_or-totals_of key rows (add_at (identity row) row.score d),
  get_or-add_at (identity row) key row.score d,
)

get_or-proportion :
    (serving whole : ℕ) (key : String) (d : Dict ℕ)
    → get_or key 0 (proportion serving whole d) ≡ serving * get_or key 0 d / whole
unfolding proportion get_or
get_or-proportion serving whole key [] = omega arith
get_or-proportion serving whole key ((j, v) ∷ rest) =
    ground (arith, get_or-proportion serving whole key rest)

get_or-give_rest-le :
    (key : String) (rest : ℕ) (totals shares : Dict ℕ)
    → get_or key 0 shares ≤ get_or key 0 (give_rest rest totals shares)
unfolding give_rest
get_or-give_rest-le key rest [] shares = omega arith
get_or-give_rest-le key rest (e ∷ totals) shares =
    omega (arith, get_or-add_at (largest e totals).0 key rest shares)

proportion-le-shares_of :
    (serving : ℕ) (earned : List Settled) (key : String)
    → 0 < total (totals_of earned [])
    → serving * get_or key 0 (totals_of earned []) / total (totals_of earned [])
      ≤ get_or key 0 (shares_of serving earned)
unfolding shares_of
proportion-le-shares_of serving earned key h =
    let t = totals_of earned [] in
    let shares = proportion serving (total t) t in
    ground (
      arith,
      get_or-proportion serving (total t) key t,
      zero-div (total t),
      get_or-give_rest-le key (serving - total shares) t shares,
    )

-- Where an amount is split by the scores of rows, before any operator is excluded, what each operator gets
-- is at least its exact proportion of the amount by its scores, rounded down; if some score is above zero.
pub shares_of_fair :
    (serving : ℕ) (earned : List Settled) (key : String)
    → 0 < sum_of (λ row. row.score) earned
    → serving * score_by key earned / sum_of (λ row. row.score) earned
      ≤ get_or key 0 (shares_of serving earned)
shares_of_fair serving earned key h =
    let whole : total (totals_of earned []) ≡ sum_of (λ row. row.score) earned =
      omega (arith, total-totals_of earned [], total-nil) in
    let own : get_or key 0 (totals_of earned []) ≡ score_by key earned =
      omega (arith, get_or-totals_of key earned [], get_or-nil key) in
    rw (← whole, ← own) (proportion-le-shares_of serving earned key (omega arith))
