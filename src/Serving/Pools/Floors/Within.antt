-- ===== src/Serving/Pools/Floors/Within.antt =====
-- `_floors` stays within what is left of the ceiling, and says what it gave.
use microtensor_subnet.Base.{
  ℕ, ◌+◌, ◌-◌, ◌≤◌, ◌≡◌, refl, String, List, [], ◌∷◌, arith, ◌∙◌, ◌==◌, false, min, ◌⊎◌, All,
  eq_iff,
}
use microtensor_subnet.Base.Fractions.{Fraction, part_of}
use microtensor_subnet.Base.Sorting.{sort, All-sort, sort-All}
use microtensor_subnet.Base.Dict.{
  Dict, get, has, has-Lacks, get-add_at_ne, get_or, total, total-add_at, get_or-add_at,
}
use microtensor_subnet.Serving.Pools.Floors.{Grants, grant, grant_all, grant_floors}

-- What is given is taken from what remains.
grant_keeps :
    (ceiling : ℕ) (operator : String) (share : Fraction) (g : Grants)
    → total (grant ceiling operator share g).shares + (grant ceiling operator share g).remaining
      ≡ total g.shares + g.remaining
unfolding grant
grant_keeps ceiling operator share g =
    let gap = part_of ceiling share - get_or operator 0 g.shares in
    ground (arith, total-add_at operator (min gap g.remaining) g.shares)

grant_all_keeps :
    (ceiling : ℕ) (floors : List (String × Fraction)) (g : Grants)
    → total (grant_all ceiling floors g).shares + (grant_all ceiling floors g).remaining
      ≡ total g.shares + g.remaining
unfolding grant_all
grant_all_keeps ceiling [] g = refl
grant_all_keeps ceiling ((operator, share) ∷ rest) g = omega (
  arith,
  grant_keeps ceiling operator share g,
  grant_all_keeps ceiling rest (grant ceiling operator share g),
)

-- The shares never pass the ceiling, if they did not before.
pub total-grant_floors-le :
    (ceiling : ℕ) (shares : Dict ℕ) (floors : Dict Fraction)
    → total shares ≤ ceiling
    → total (grant_floors ceiling shares floors).shares ≤ ceiling
unfolding grant_floors
total-grant_floors-le ceiling shares floors h = omega (
  arith,
  grant_all_keeps ceiling (sort _ floors)
      (record { shares = shares; granted = []; remaining = ceiling - total shares }),
)

-- A grant lowers no share and frees nothing.
grant_mono :
    (ceiling : ℕ) (operator : String) (share : Fraction) (g : Grants) (key : String)
    → (get_or key 0 g.shares ≤ get_or key 0 (grant ceiling operator share g).shares)
      × ((grant ceiling operator share g).remaining ≤ g.remaining)
unfolding grant
grant_mono ceiling operator share g key =
    let gap = part_of ceiling share - get_or operator 0 g.shares in
    ground (arith, get_or-add_at operator key (min gap g.remaining) g.shares)

grant_all_mono :
    (ceiling : ℕ) (floors : List (String × Fraction)) (g : Grants) (key : String)
    → (get_or key 0 g.shares ≤ get_or key 0 (grant_all ceiling floors g).shares)
      × ((grant_all ceiling floors g).remaining ≤ g.remaining)
unfolding grant_all
grant_all_mono ceiling [] g key = omega arith
grant_all_mono ceiling ((operator, share) ∷ rest) g key = omega (
  arith,
  grant_mono ceiling operator share g key,
  grant_all_mono ceiling rest (grant ceiling operator share g) key,
)

-- The floor is reached, or nothing remains.
abbrev pub IsLifted : ℕ → Grants → String × Fraction → Type 0
IsLifted ceiling g (operator, share) =
    (part_of ceiling share ≤ get_or operator 0 g.shares) ⊎ (g.remaining ≡ 0)

grant-IsLifted :
    (ceiling : ℕ) (operator : String) (share : Fraction) (g : Grants)
    → IsLifted ceiling (grant ceiling operator share g) (operator, share)
unfolding grant
grant-IsLifted ceiling operator share g =
    let gap = part_of ceiling share - get_or operator 0 g.shares in
    ground (
      arith,
      get_or-add_at operator operator (min gap g.remaining) g.shares,
      eq_iff operator operator,
    )

grant_all-IsLifted :
    (ceiling : ℕ) (floors : List (String × Fraction)) (g : Grants)
    → All (IsLifted ceiling (grant_all ceiling floors g)) floors
unfolding grant_all
grant_all-IsLifted ceiling [] g = tt
grant_all-IsLifted ceiling ((operator, share) ∷ rest) g = (
  omega (
    arith,
    grant-IsLifted ceiling operator share g,
    grant_all_mono ceiling rest (grant ceiling operator share g) operator,
  ),
  grant_all-IsLifted ceiling rest (grant ceiling operator share g),
)

-- Every operator with a floor reaches it, unless the ceiling is used up.
pub grant_floors-IsLifted :
    (ceiling : ℕ) (shares : Dict ℕ) (floors : Dict Fraction)
    → All (IsLifted ceiling (grant_floors ceiling shares floors)) floors
unfolding grant_floors
grant_floors-IsLifted ceiling shares floors =
    All-sort _ _ floors (grant_all-IsLifted ceiling (sort _ floors) _)

-- What is left of the ceiling remains.
pub remaining-grant_floors :
    (ceiling : ℕ) (shares : Dict ℕ) (floors : Dict Fraction)
    → total shares ≤ ceiling
    → ceiling - total (grant_floors ceiling shares floors).shares
      ≡ (grant_floors ceiling shares floors).remaining
unfolding grant_floors
remaining-grant_floors ceiling shares floors h = omega (
  arith,
  grant_all_keeps ceiling (sort _ floors)
      (record { shares = shares; granted = []; remaining = ceiling - total shares }),
)

-- An operator without a floor keeps its share.
grant_all-others :
    (ceiling : ℕ) (key : String) (floors : List (String × Fraction)) (g : Grants)
    → All (λ e. (e.0 == key) ≡ false) floors
    → get key (grant_all ceiling floors g).shares ≡ get key g.shares
unfolding grant_all grant
grant_all-others ceiling key [] g h = refl
grant_all-others ceiling key ((operator, share) ∷ rest) g (ne, h) =
    let gap = part_of ceiling share - get_or operator 0 g.shares in
    grant_all-others ceiling key rest (grant ceiling operator share g) h
    ∙ ground (arith, get-add_at_ne operator key (min gap g.remaining) g.shares)

pub get-grant_floors :
    (ceiling : ℕ) (key : String) (shares : Dict ℕ) (floors : Dict Fraction)
    → has key floors ≡ false
    → get key (grant_floors ceiling shares floors).shares ≡ get key shares
unfolding grant_floors
get-grant_floors ceiling key shares floors h =
    grant_all-others ceiling key (sort _ floors) _ (sort-All _ _ floors (has-Lacks key floors h))
