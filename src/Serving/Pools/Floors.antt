-- ===== src/Serving/Pools/Floors.antt =====
-- serving/pools.py, `_floors`: newcomers are lifted to a floor from what is left of the ceiling.
pub mod Within
use microtensor_subnet.Base.{
  ℕ, ◌-◌, ◌/◌, String, Bool, true, false, List, [], ◌∷◌, if◌then◌else◌, eqb, ◌||◌, min, text_le,
}
use microtensor_subnet.Base.Fractions.{Fraction, part_of}
use microtensor_subnet.Base.Sorting.{sort}
use microtensor_subnet.Base.Dict.{Dict, get_or, put, total, add_at}

-- The variables of the loop.
pub record Grants : Type 0 where
  pub shares : Dict ℕ
  pub granted : Dict ℕ
  pub remaining : ℕ

unfoldable pub grant : ℕ → String → Fraction → Grants → Grants
grant ceiling operator share g =
    let gap = part_of ceiling share - get_or operator 0 g.shares in
    let topup = min gap g.remaining in
    if eqb gap 0 || eqb g.remaining 0 then g else record {
      shares = add_at operator topup g.shares;
      granted = put operator topup g.granted;
      remaining = g.remaining - topup;
    }

unfoldable pub grant_all : ℕ → List (String × Fraction) → Grants → Grants
unfolding grant
grant_all ceiling [] g = g
grant_all ceiling ((operator, share) ∷ rest) g =
    grant_all ceiling rest (grant ceiling operator share g)

-- Keys are distinct, so sorting by key is sorting the items.
unfoldable pub grant_floors : ℕ → Dict ℕ → Dict Fraction → Grants
unfolding grant_all
grant_floors ceiling shares floors =
    grant_all ceiling (sort (λ a b. text_le a.0 b.0) floors)
      (record { shares = shares; granted = []; remaining = ceiling - total shares })
