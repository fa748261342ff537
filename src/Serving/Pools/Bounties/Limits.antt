-- ===== src/Serving/Pools/Bounties/Limits.antt =====
-- Bounties stay within their reserve, and none goes to an excluded operator.
use native.Mathlib.Nat.{mul-div-le}
use microtensor_subnet.Base.{
  ℕ, ◌+◌, ◌*◌, ◌/◌, ◌≤◌, ◌≡◌, refl, String, List, [], ◌∷◌, arith, length, ltb, text_le,
}
use microtensor_subnet.Base.Sorting.{sort, length-sort}
use microtensor_subnet.Base.Dict.{
  Dict, get_or, add_at, total, total-add_at, total-keep-le, total-nil, keys,
}
use microtensor_subnet.Serving.Settle.{Settled}
use microtensor_subnet.Serving.Pools.Exclusion.{Reason}
use microtensor_subnet.Serving.Pools.Bounties.{
  Claims, claims_of, pay_each, pay_digests, bounties_of,
}

total-pay_each :
    (each : ℕ) (winners : List String) (found : Dict ℕ)
    → total (pay_each each winners found) ≡ total found + length winners * each
unfolding pay_each
total-pay_each each [] found = omega arith
total-pay_each each (operator ∷ rest) found =
    omega (
      arith,
      total-pay_each each rest (add_at operator each found),
      total-add_at operator each found,
    )

total-pay_digests :
    (per_digest : ℕ) (claims : Claims) (digests : List String) (found : Dict ℕ)
    → total (pay_digests per_digest claims digests found)
      ≤ total found + length digests * per_digest
unfolding pay_digests
total-pay_digests per_digest claims [] found = omega arith
total-pay_digests per_digest claims (digest ∷ rest) found =
    let winners = sort text_le (get_or digest [] claims) in
    let each = per_digest / length winners in
    omega (
      arith,
      total-pay_digests per_digest claims rest (pay_each each winners found),
      total-pay_each each winners found,
      mul-div-le per_digest (length winners),
    )

length-keys {ℓ} : {V : Type ℓ} (d : Dict V) → length (keys d) ≡ length d
length-keys [] = refl
length-keys (e ∷ d) = omega (arith, length-keys d)

-- The bounties together never pass the reserve.
pub total-bounties_of-le :
    (reserve : ℕ) (settled : List Settled) (excluded : Dict Reason)
    → total (bounties_of reserve settled excluded) ≤ reserve
unfolding bounties_of
total-bounties_of-le reserve settled excluded =
    let claims = claims_of excluded settled [] in
    let digests = sort text_le (keys claims) in
    let paid = pay_digests (reserve / length claims) claims digests [] in
    ground (
      arith,
      total-nil,
      total-keep-le (λ e. ltb 0 e.1) paid,
      total-pay_digests (reserve / length claims) claims digests [],
      length-sort text_le (keys claims),
      length-keys claims,
      mul-div-le reserve (length claims),
    )
