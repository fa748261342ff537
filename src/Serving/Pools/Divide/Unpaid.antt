-- ===== src/Serving/Pools/Divide/Unpaid.antt =====
-- An operator that is excluded and has no floor is paid nothing.
use microtensor_subnet.Base.{
  ℕ, String, true, false, List, [], ◌∷◌, Option, none, ◌≡◌, refl, arith, ok, >>=-eq-ok,
  ok-injective, subst, eq_iff, raise_if, ◌∙◌,
}
use microtensor_subnet.Base.Int.{pos}
use microtensor_subnet.Base.Fractions.{Fraction, Signed, lt_fraction}
use microtensor_subnet.Base.Dict.{Dict, get, has, add_at, get-add_at_ne, Lacks, get-Lacks}
use microtensor_subnet.Serving.Settle.{Settled}
use microtensor_subnet.Serving.Pools.Dials.{Dials, not_negative, bad_bounty_share, max_bounty_share}
use microtensor_subnet.Serving.Pools.Exclusion.{Reason, excluded_of}
use microtensor_subnet.Serving.Pools.Bounties.Unclaimed.{get-bounties_of}
use microtensor_subnet.Serving.Pools.Floors.Within.{get-grant_floors}
use microtensor_subnet.Serving.Pools.Divide.{
  Split, Amounts, amounts_of, rules_of, earned_of, without_excluded, add_bounties, shares_before,
  split_of, divide,
}

get-without_excluded :
    (operator : String) (excluded : Dict Reason) (shares : Dict ℕ)
    → has operator excluded ≡ true
    → get operator (without_excluded excluded shares) ≡ none
unfolding without_excluded get
get-without_excluded operator excluded [] h = refl
get-without_excluded operator excluded ((key, n) ∷ shares) h =
    ground (arith, get-without_excluded operator excluded shares, eq_iff key operator)

get-add_bounties :
    (operator : String) (bounties shares : Dict ℕ)
    → Lacks operator bounties
    → get operator (add_bounties bounties shares) ≡ get operator shares
unfolding add_bounties
get-add_bounties operator [] shares h = refl
get-add_bounties operator ((key, n) ∷ rest) shares (ne, h) =
    get-add_bounties operator rest (add_at key n shares) h ∙ get-add_at_ne key operator n shares ne

split_of-unpaid :
    (operator : String) (emission : ℕ) (a : Amounts) (settled : List Settled)
    (floors : Dict Fraction)
    → has operator (excluded_of settled) ≡ true
    → has operator floors ≡ false
    → get operator (split_of emission a settled floors).shares ≡ none
unfolding split_of shares_before
split_of-unpaid operator emission a settled floors out no_floor =
    let excluded = excluded_of settled in
    let bounties = get-bounties_of operator a.reserve settled excluded out in
    get-grant_floors a.ceiling operator _ floors no_floor
    ∙ get-add_bounties operator _ _ (get-Lacks operator _ bounties)
    ∙ get-without_excluded operator excluded _ out

-- An excluded operator that is given no floor has no share in a division.
pub divide-unpaid :
    (operator : String) (emission : ℕ) (settled : List Settled) (dials : Option Dials)
    (floors : Dict Fraction) (bounty_share : Signed) {s : Split}
    → has operator (excluded_of settled) ≡ true
    → has operator floors ≡ false
    → divide (pos emission) settled dials floors bounty_share ≡ ok s
    → get operator s.shares ≡ none
unfolding divide
divide-unpaid operator emission settled dials floors bounty_share out no_floor h =
    let (share, _, checked) = >>=-eq-ok (not_negative bounty_share bad_bounty_share) _ h in
    let (_, _, result) =
      >>=-eq-ok (raise_if (lt_fraction max_bounty_share share) bad_bounty_share) _ checked in
    subst (λ s. get operator s.shares ≡ none) (ok-injective result)
      (split_of-unpaid operator emission
        (amounts_of emission (earned_of settled) (rules_of dials) share) settled floors out
        no_floor)
