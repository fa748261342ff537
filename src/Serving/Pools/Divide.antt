-- ===== src/Serving/Pools/Divide.antt =====
-- serving/pools.py, `divide` and `weights`.
pub mod Conserve
pub mod Unpaid
pub mod Lifted
pub mod Weights
use microtensor_subnet.Base.{
  ℕ, ◌+◌, ◌-◌, String, Bool, true, false, List, [], ◌∷◌, Option, none, some, Result, ok, raised,
  if◌then◌else◌, ltb, eqb, not, keep, sum_of, min, ◌>>=◌, ◌>>◌, raise_if,
}
use microtensor_subnet.Base.Int.{ℤ, pos, negsuc}
use microtensor_subnet.Base.Fractions.{Fraction, Signed, part_of, sub_fraction, whole, lt_fraction}
use microtensor_subnet.Base.Dict.{Dict, get, total, has, add_at}
use microtensor_subnet.Serving.Settle.{Settled}
use microtensor_subnet.Serving.Pools.Dials.{
  PoolError, negative_emission, bad_bounty_share, Dials, default_dials, not_negative,
  max_bounty_share, is_empty,
}
use microtensor_subnet.Serving.Pools.Exclusion.{Reason, excluded_of}
use microtensor_subnet.Serving.Pools.Bounties.{bounties_of}
use microtensor_subnet.Serving.Pools.Shares.{shares_of}
use microtensor_subnet.Serving.Pools.Floors.{Grants, grant_floors}

pub record Split : Type 0 where
  pub emission : ℕ
  pub available : ℕ
  pub serving : ℕ
  pub modelling : ℕ
  pub total_score : ℕ
  pub capped : Bool
  pub shares : Dict ℕ
  pub burned : ℕ
  pub floors : Dict ℕ
  pub bounties : Dict ℕ
  pub excluded : Dict Reason

-- [row for row in settled if row.score > 0]
abbrev pub earned_of : List Settled → List Settled
earned_of settled = keep (λ row. ltb 0 row.score) settled

-- del shares[operator] for each key in excluded
unfoldable pub without_excluded : Dict Reason → Dict ℕ → Dict ℕ
without_excluded excluded shares = keep (λ e. not (has e.0 excluded)) shares

-- for operator, amount in bounties.items(): shares[operator] = shares.get(operator, 0) + amount
unfoldable pub add_bounties : Dict ℕ → Dict ℕ → Dict ℕ
add_bounties [] shares = shares
add_bounties ((operator, amount) ∷ rest) shares = add_bounties rest (add_at operator amount shares)

-- The amounts that `divide` computes before anybody is paid.
pub record Amounts : Type 0 where
  pub available : ℕ
  pub rebated : ℕ
  pub ceiling : ℕ
  pub paid : ℕ
  pub reserve : ℕ

unfoldable pub amounts_of : ℕ → List Settled → Dials → Fraction → Amounts
amounts_of emission earned rules bounty_share =
    let available = part_of emission (sub_fraction (whole 1) rules.reserve) in
    let rebated = part_of (sum_of (λ row. row.billing) earned) rules.rebate in
    let ceiling = part_of available rules.cap in
    let paid = min rebated ceiling in
    record {
      available = available;
      rebated = rebated;
      ceiling = ceiling;
      paid = paid;
      reserve = if is_empty earned then 0 else part_of paid bounty_share;
    }

-- The shares of the operators before the floors are granted.
unfoldable pub shares_before : Amounts → List Settled → Dict ℕ
unfolding add_bounties
shares_before a settled =
    let excluded = excluded_of settled in
    add_bounties (bounties_of a.reserve settled excluded)
      (without_excluded excluded (shares_of (a.paid - a.reserve) (earned_of settled)))

unfoldable pub split_of : ℕ → Amounts → List Settled → Dict Fraction → Split
unfolding shares_before
split_of emission a settled floors =
    let granted = grant_floors a.ceiling (shares_before a settled) floors in
    record {
      emission = emission;
      available = a.available;
      serving = a.ceiling;
      modelling = a.available - a.ceiling;
      total_score = sum_of (λ row. row.score) (earned_of settled);
      capped = ltb a.ceiling a.rebated;
      shares = granted.shares;
      burned = a.ceiling - total granted.shares;
      floors = granted.granted;
      bounties = bounties_of a.reserve settled (excluded_of settled);
      excluded = excluded_of settled;
    }

abbrev pub rules_of : Option Dials → Dials
rules_of none = default_dials
rules_of (some dials) = dials

unfoldable pub divide :
    ℤ → List Settled → Option Dials → Dict Fraction → Signed → Result PoolError Split
unfolding amounts_of split_of
divide (negsuc n) settled dials floors bounty_share = raised negative_emission
divide (pos emission) settled dials floors bounty_share = do
  share ← not_negative bounty_share bad_bounty_share
  raise_if (lt_fraction max_bounty_share share) bad_bounty_share
  ok (
      split_of emission (amounts_of emission (earned_of settled) (rules_of dials) share) settled
        floors)

-- found[uid] = found.get(uid, 0) + share
unfoldable pub add_uid : ℕ → ℕ → List (ℕ × ℕ) → List (ℕ × ℕ)
add_uid uid share [] = (uid, share) ∷ []
add_uid uid share ((u, n) ∷ found) =
    if eqb u uid then (u, n + share) ∷ found else (u, n) ∷ add_uid uid share found

abbrev pub add_weight : Option ℕ → ℕ → List (ℕ × ℕ) → List (ℕ × ℕ)
add_weight none share found = found
add_weight (some uid) share found = if eqb share 0 then found else add_uid uid share found

-- The loop of `weights`, from what was found so far.
unfoldable pub add_weights : Dict ℕ → Dict ℕ → List (ℕ × ℕ) → List (ℕ × ℕ)
unfolding add_uid
add_weights [] uids found = found
add_weights ((operator, share) ∷ rest) uids found =
    add_weights rest uids (add_weight (get operator uids) share found)

unfoldable pub weights : Split → Dict ℕ → List (ℕ × ℕ)
unfolding add_weights
weights split uid_by_operator = add_weights split.shares uid_by_operator []
