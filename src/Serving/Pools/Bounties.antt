-- ===== src/Serving/Pools/Bounties.antt =====
-- serving/pools.py, `bounties_of`: a reserve divided between the digests that went live first.
pub mod Limits
pub mod Unclaimed
use microtensor_subnet.Base.{
  ℕ, ◌/◌, String, Bool, true, false, List, [], ◌∷◌, if◌then◌else◌, length, keep, add_to_set, ltb,
  map, eqb, ◌||◌, ◌==◌, text_le,
}
use microtensor_subnet.Base.Sorting.{sort}
use microtensor_subnet.Base.Dict.{Dict, get_or, put, has, keys, add_at}
use microtensor_subnet.Serving.Settle.{Settled}
use microtensor_subnet.Serving.Pools.Exclusion.{Reason}

abbrev pub Claims : Type 0
Claims = Dict (List String)

-- for digest in row.first_live: claims.setdefault(digest, set()).add(operator)
unfoldable pub claim : String → List String → Claims → Claims
claim operator [] claims = claims
claim operator (digest ∷ digests) claims =
    claim operator digests (put digest (add_to_set operator (get_or digest [] claims)) claims)

unfoldable pub claims_of : Dict Reason → List Settled → Claims → Claims
unfolding claim
claims_of excluded [] claims = claims
claims_of excluded (row ∷ rows) claims =
    claims_of excluded rows
      (if has row.operator excluded then claims else claim row.operator row.first_live claims)

-- for operator in winners: found[operator] = found.get(operator, 0) + each
unfoldable pub pay_each : ℕ → List String → Dict ℕ → Dict ℕ
pay_each each [] found = found
pay_each each (operator ∷ rest) found = pay_each each rest (add_at operator each found)

-- The loop over the sorted digests.
unfoldable pub pay_digests : ℕ → Claims → List String → Dict ℕ → Dict ℕ
unfolding pay_each
pay_digests per_digest claims [] found = found
pay_digests per_digest claims (digest ∷ rest) found =
    let winners = sort text_le (get_or digest [] claims) in
    pay_digests per_digest claims rest (pay_each (per_digest / length winners) winners found)

unfoldable pub bounties_of : ℕ → List Settled → Dict Reason → Dict ℕ
unfolding claims_of pay_digests
bounties_of reserve settled excluded =
    let claims = claims_of excluded settled [] in
    if eqb reserve 0 || eqb (length claims) 0
    then []
    else keep (λ e. ltb 0 e.1)
        (pay_digests (reserve / length claims) claims (sort text_le (keys claims)) [])
