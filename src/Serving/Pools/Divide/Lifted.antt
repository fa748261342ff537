-- ===== src/Serving/Pools/Divide/Lifted.antt =====
-- What a floor promises after a division.
use microtensor_subnet.Base.{
  ℕ, ◌≤◌, ◌≡◌, String, List, [], ◌∷◌, Option, some, All, ok, arith, >>=-eq-ok, ok-injective, subst,
  raise_if, ◌⊎◌, inl, inr, ◌∙◌, refl,
}
use microtensor_subnet.Base.Int.{pos}
use microtensor_subnet.Base.Fractions.{Fraction, Signed, part_of, lt_fraction}
use microtensor_subnet.Base.Dict.{Dict, get_or}
use microtensor_subnet.Serving.Settle.{Settled}
use microtensor_subnet.Serving.Pools.Dials.{Dials, not_negative, bad_bounty_share, max_bounty_share}
use microtensor_subnet.Serving.Pools.Floors.{Grants, grant_floors}
use microtensor_subnet.Serving.Pools.Floors.Within.{
  IsLifted, grant_floors-IsLifted, remaining-grant_floors,
}
use microtensor_subnet.Serving.Pools.Divide.{
  Split, Amounts, earned_of, amounts_of, shares_before, split_of, rules_of, divide,
}
use microtensor_subnet.Serving.Pools.Divide.Conserve.{
  IsValid, IsNested, amounts_of-IsNested, total-shares_before-le, small_share, rules_of-IsValid,
}

-- The operator has its floor of the serving part, or nothing of that part is burned.
abbrev pub HasFloor : Split → String × Fraction → Type 0
HasFloor s (operator, share) =
    (part_of s.serving share ≤ get_or operator 0 s.shares) ⊎ (s.burned ≡ 0)

All-HasFloor :
    (s : Split) (g : Grants) (floors : List (String × Fraction))
    → g.shares ≡ s.shares
    → s.burned ≡ g.remaining
    → All (IsLifted s.serving g) floors
    → All (HasFloor s) floors
All-HasFloor s g [] same left h = tt
All-HasFloor s g ((operator, share) ∷ rest) same left (inl reached, h) = (
  inl (subst (λ d. part_of s.serving share ≤ get_or operator 0 d) same reached),
  All-HasFloor s g rest same left h,
)
All-HasFloor s g ((operator, share) ∷ rest) same left (inr none_left, h) =
    (inr (left ∙ none_left), All-HasFloor s g rest same left h)

split_of-HasFloor :
    (emission : ℕ) (a : Amounts) (settled : List Settled) (floors : Dict Fraction)
    → IsNested emission a
    → All (HasFloor (split_of emission a settled floors)) floors
unfolding split_of
split_of-HasFloor emission a settled floors n =
    let before = shares_before a settled in
    let fits = total-shares_before-le a settled n.reserve_le in
    All-HasFloor (split_of emission a settled floors) (grant_floors a.ceiling before floors) floors
      refl (remaining-grant_floors a.ceiling before floors (omega arith))
      (grant_floors-IsLifted a.ceiling before floors)

-- Every operator with a floor has at least its floor after a division, unless nothing is burned.
-- The floor is granted to excluded operators too.
pub divide-HasFloor :
    (emission : ℕ) (settled : List Settled) (dials : Option Dials) (floors : Dict Fraction)
    (bounty_share : Signed) {s : Split}
    → ((d : Dials) → dials ≡ some d → IsValid d)
    → divide (pos emission) settled dials floors bounty_share ≡ ok s
    → All (HasFloor s) floors
unfolding divide
divide-HasFloor emission settled dials floors bounty_share valid h =
    let (share, _, checked) = >>=-eq-ok (not_negative bounty_share bad_bounty_share) _ h in
    let (_, small, result) =
      >>=-eq-ok (raise_if (lt_fraction max_bounty_share share) bad_bounty_share) _ checked in
    let amounts = amounts_of emission (earned_of settled) (rules_of dials) share in
    subst (λ s. All (HasFloor s) floors) (ok-injective result)
      (split_of-HasFloor emission amounts settled floors (
        amounts_of-IsNested emission (earned_of settled) (rules_of dials) share
          (rules_of-IsValid dials valid) (small_share share small)))
