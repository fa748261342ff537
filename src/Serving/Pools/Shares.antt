-- ===== src/Serving/Pools/Shares.antt =====
-- serving/pools.py, `identity` and `_shares`: the paid emission in proportion to the scores.
pub mod Exact
use microtensor_subnet.Base.{
  ℕ, ◌+◌, ◌-◌, ◌*◌, ◌/◌, String, Bool, true, false, List, [], ◌∷◌, if◌then◌else◌, ltb, eqb, ◌||◌,
  ◌&&◌, text_lt, map,
}
use microtensor_subnet.Base.Dict.{Dict, total, add_at}
use microtensor_subnet.Serving.Settle.{Settled}

abbrev pub identity : Settled → String
identity row = row.operator

-- totals[key] = totals.get(key, 0) + row.score
unfoldable pub totals_of : List Settled → Dict ℕ → Dict ℕ
totals_of [] totals = totals
totals_of (row ∷ rows) totals = totals_of rows (add_at (identity row) row.score totals)

-- {key: (serving * value) // whole for key, value in totals.items()}
unfoldable pub proportion : ℕ → ℕ → Dict ℕ → Dict ℕ
proportion serving whole [] = []
proportion serving whole ((key, value) ∷ rest) =
    (key, serving * value / whole) ∷ proportion serving whole rest

-- max(totals, key=lambda key: (totals[key], key))
unfoldable pub largest : String × ℕ → Dict ℕ → String × ℕ
largest best [] = best
largest best (e ∷ rest) =
    largest (if ltb best.1 e.1 || eqb best.1 e.1 && text_lt best.0 e.0 then e else best) rest

-- The key of the largest total gets what the divisions left over.
unfoldable pub give_rest : ℕ → Dict ℕ → Dict ℕ → Dict ℕ
unfolding largest
give_rest rest [] shares = shares
give_rest rest (e ∷ totals) shares = add_at (largest e totals).0 rest shares

unfoldable pub shares_of : ℕ → List Settled → Dict ℕ
unfolding totals_of proportion give_rest
shares_of serving earned =
    let totals = totals_of earned [] in
    let whole = total totals in
    let shares = proportion serving whole totals in
    let rest = serving - total shares in
    if eqb serving 0 || eqb whole 0
    then []
    else if eqb rest 0
    then shares
    else give_rest rest totals shares
