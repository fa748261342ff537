-- ===== src/Serving/Pools/Divide/Conserve.antt =====
-- `divide` gives away no more than there is: what is not paid is burned or left to modelling.
use microtensor_subnet.Base.{
  ℕ, ◌+◌, ◌-◌, ◌≤◌, ◌<◌, ◌≡◌, refl, List, [], ◌∷◌, arith, Option, none, some, ok, sum_of, min,
  >>=-eq-ok, ok-injective, subst, not, raise_if,
}
use microtensor_subnet.Base.Int.{pos}
use microtensor_subnet.Base.Fractions.{
  Fraction, Signed, part_of, part_of-le, sub_fraction, whole, lt_fraction,
}
use microtensor_subnet.Base.Dict.{
  Dict, total, add_at, total-add_at, total-keep-le, total-nil, total-cons, has,
}
use microtensor_subnet.Serving.Settle.{Settled}
use microtensor_subnet.Serving.Pools.Dials.{Dials, not_negative, bad_bounty_share, max_bounty_share}
use microtensor_subnet.Serving.Pools.Exclusion.{excluded_of}
use microtensor_subnet.Serving.Pools.Bounties.{bounties_of}
use microtensor_subnet.Serving.Pools.Bounties.Limits.{total-bounties_of-le}
use microtensor_subnet.Serving.Pools.Shares.{shares_of}
use microtensor_subnet.Serving.Pools.Shares.Exact.{total-shares_of-le}
use microtensor_subnet.Serving.Pools.Floors.Within.{total-grant_floors-le}
use microtensor_subnet.Serving.Pools.Divide.{
  Split, Amounts, earned_of, without_excluded, add_bounties, amounts_of, shares_before, split_of,
  rules_of, divide,
}

-- What `Dials.__post_init__` and the denominators of `Fraction` guarantee.
pub record IsValid (d : Dials) : Type 0 where
  pub reserve_below_one : d.reserve.num < d.reserve.den
  pub cap_at_most_one : d.cap.num ≤ d.cap.den

-- The amounts are nested: the reserve is part of the paid, which is part of the ceiling, which is
-- part of the available, which is part of the emission.
pub record IsNested (emission : ℕ) (a : Amounts) : Type 0 where
  pub available_le : a.available ≤ emission
  pub ceiling_le : a.ceiling ≤ a.available
  pub paid_le : a.paid ≤ a.ceiling
  pub reserve_le : a.reserve ≤ a.paid

pub amounts_of-IsNested :
    (emission : ℕ) (earned : List Settled) (rules : Dials) (share : Fraction)
    → IsValid rules
    → share.num ≤ share.den
    → IsNested emission (amounts_of emission earned rules share)
unfolding amounts_of
amounts_of-IsNested emission earned rules share v h =
    let left = sub_fraction (whole 1) rules.reserve in
    let available = part_of emission left in
    let paid =
      min (part_of (sum_of (λ row. row.billing) earned) rules.rebate)
        (part_of available rules.cap) in
    ground (
      arith,
      part_of-le emission left,
      part_of-le available rules.cap,
      v.cap_at_most_one,
      part_of-le paid share,
    )

total-add_bounties :
    (bounties shares : Dict ℕ)
    → total (add_bounties bounties shares) ≡ total bounties + total shares
unfolding add_bounties
total-add_bounties [] shares = omega (arith, total-nil)
total-add_bounties ((operator, amount) ∷ rest) shares = omega (
  arith,
  total-add_bounties rest (add_at operator amount shares),
  total-add_at operator amount shares,
  total-cons operator amount rest,
)

-- Before the floors the operators have at most what is paid.
pub total-shares_before-le :
    (a : Amounts) (settled : List Settled)
    → a.reserve ≤ a.paid
    → total (shares_before a settled) ≤ a.paid
unfolding shares_before without_excluded
total-shares_before-le a settled h =
    let excluded = excluded_of settled in
    let shares = shares_of (a.paid - a.reserve) (earned_of settled) in
    omega (
      arith,
      total-add_bounties (bounties_of a.reserve settled excluded)
          (without_excluded excluded shares),
      total-bounties_of-le a.reserve settled excluded,
      total-keep-le (λ e. not (has e.0 excluded)) shares,
      total-shares_of-le (a.paid - a.reserve) (earned_of settled),
    )

-- Nothing is created: the shares and what is burned make up the serving part exactly, the serving
-- and the modelling part make up what is available, and that is within the emission.
pub record IsConserved (emission : ℕ) (s : Split) : Type 0 where
  pub of_emission : s.emission ≡ emission
  pub served : total s.shares + s.burned ≡ s.serving
  pub split : s.serving + s.modelling ≡ s.available
  pub within : s.available ≤ emission

split_of-IsConserved :
    (emission : ℕ) (a : Amounts) (settled : List Settled) (floors : Dict Fraction)
    → IsNested emission a
    → IsConserved emission (split_of emission a settled floors)
unfolding split_of
split_of-IsConserved emission a settled floors n =
    let before = total-shares_before-le a settled n.reserve_le in
    let granted = total-grant_floors-le a.ceiling (shares_before a settled) floors (omega arith) in
    record {
      of_emission = refl;
      served = omega arith;
      split = omega arith;
      within = n.available_le;
    }

pub small_share :
    (share : Fraction)
    → raise_if (lt_fraction max_bounty_share share) bad_bounty_share ≡ ok tt
    → share.num ≤ share.den
small_share share h = ground arith

pub rules_of-IsValid :
    (dials : Option Dials) → ((d : Dials) → dials ≡ some d → IsValid d) → IsValid (rules_of dials)
rules_of-IsValid none h = record { reserve_below_one = omega arith; cap_at_most_one = omega arith }
rules_of-IsValid (some d) h = h d refl

-- Whatever was served, a division that succeeds under valid dials conserves the emission.
pub divide-IsConserved :
    (emission : ℕ) (settled : List Settled) (dials : Option Dials) (floors : Dict Fraction)
    (bounty_share : Signed) {s : Split}
    → ((d : Dials) → dials ≡ some d → IsValid d)
    → divide (pos emission) settled dials floors bounty_share ≡ ok s
    → IsConserved emission s
unfolding divide
divide-IsConserved emission settled dials floors bounty_share valid h =
    let (share, _, checked) = >>=-eq-ok (not_negative bounty_share bad_bounty_share) _ h in
    let (_, small, result) =
      >>=-eq-ok (raise_if (lt_fraction max_bounty_share share) bad_bounty_share) _ checked in
    subst (IsConserved emission) (ok-injective result) (
      split_of-IsConserved emission _ settled floors (
        amounts_of-IsNested emission (earned_of settled) (rules_of dials) share
          (rules_of-IsValid dials valid) (small_share share small)))
