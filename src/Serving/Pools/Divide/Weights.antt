-- ===== src/Serving/Pools/Divide/Weights.antt =====
-- `weights`: the shares by uid.
use microtensor_subnet.Base.{
  ℕ, ◌+◌, ◌≡◌, List, [], ◌∷◌, none, some, arith, sum_of, eqb, if◌then◌else◌, Option-cases, inl, inr,
}
use microtensor_subnet.Base.Dict.{Dict, get}
use microtensor_subnet.Serving.Pools.Divide.{Split, add_uid, add_weights, weights}

-- The share of the operators that the metagraph gives a uid.
abbrev pub known_total : Dict ℕ → Dict ℕ → ℕ
known_total uids [] = 0
known_total uids ((operator, share) ∷ rest) =
    (elim (get operator uids) [ none ↦ 0 | some uid ↦ share ]) + known_total uids rest

sum_of-add_uid :
    (uid share : ℕ) (found : List (ℕ × ℕ))
    → sum_of (λ e. e.1) (add_uid uid share found) ≡ sum_of (λ e. e.1) found + share
unfolding add_uid
sum_of-add_uid uid share [] = omega arith
sum_of-add_uid uid share ((u, n) ∷ found) = ground (arith, sum_of-add_uid uid share found)

sum_of-add_weights :
    (shares uids : Dict ℕ) (found : List (ℕ × ℕ))
    → sum_of (λ e. e.1) (add_weights shares uids found)
      ≡ sum_of (λ e. e.1) found + known_total uids shares
unfolding add_weights
sum_of-add_weights [] uids found = omega arith
sum_of-add_weights ((operator, share) ∷ rest) uids found = elim (Option-cases (get operator uids)) [
  | inl e ↦ rw e (omega (arith, sum_of-add_weights rest uids found))
  | inr (uid, e) ↦ rw e (
      ground (
        arith,
        sum_of-add_weights rest uids (if eqb share 0 then found else add_uid uid share found),
        sum_of-add_uid uid share found,
      ))
]

-- The weights add up to the shares of the operators that have a uid, also where operators share one.
pub weights-total :
    (split : Split) (uids : Dict ℕ)
    → sum_of (λ e. e.1) (weights split uids) ≡ known_total uids split.shares
unfolding weights
weights-total split uids = omega (arith, sum_of-add_weights split.shares uids [])
