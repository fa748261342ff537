-- ===== src/Rigs/Weights/Tests.antt =====
-- Three scored uids, a reserve that holds two fifths, and active uids without a score; in thousandths.
use microtensor_subnet.Base.{ℕ, ◌≤◌, ◌≡◌, refl, List, [], ◌∷◌, some, none, All, length, sum_of}
use microtensor_subnet.Serving.Plan.Samples.{thousandths}
use microtensor_subnet.Rigs.Weights.{
  normalise, with_reserve, to_u16, u16_of, build, eligibility_floor,
}
use microtensor_subnet.Rigs.Weights.Uids.{total}
use microtensor_subnet.Rigs.Weights.Built.{build-total}

abbrev scores : List (ℕ × ℕ)
scores = (4, 3000) ∷ (2, 1000) ∷ (6, 0) ∷ []

abbrev u16 : List (ℕ × ℕ)
u16 = (4, 65535) ∷ (2, 20000) ∷ (0, 3) ∷ []

program : Unit {0}
unfolding normalise with_reserve to_u16 build eligibility_floor
program = tt

-- The reserve can give to two of the three, and keeps one.
floored :
    eligibility_floor u16 (9 ∷ 4 ∷ 6 ∷ 7 ∷ []) (some 0)
    ≡ (6 ∷ 7 ∷ [], (4, 65535) ∷ (2, 20000) ∷ (0, 1) ∷ (6, 1) ∷ (7, 1) ∷ [])
unfolding program
floored = refl

built : build thousandths scores (6 ∷ 4 ∷ []) (some 0) 400 ≡ record {
  uids = 0 ∷ 2 ∷ 4 ∷ 6 ∷ [];
  weights = 58194 ∷ 21823 ∷ 65535 ∷ 1 ∷ [];
  floored = 6 ∷ [];
  reserve_uid = some 0;
}
unfolding program
built = refl

no_reserve : (build thousandths scores (6 ∷ 4 ∷ []) none 400).uids ≡ 2 ∷ 4 ∷ []
unfolding program
no_reserve = refl

build-total_example :
    All (λ w. 1 ≤ w) (build thousandths scores (6 ∷ 4 ∷ []) (some 0) 400).weights
    × (length (build thousandths scores (6 ∷ 4 ∷ []) (some 0) 400).uids
        ≡ length (build thousandths scores (6 ∷ 4 ∷ []) (some 0) 400).weights)
    × (sum_of (λ w. w) (build thousandths scores (6 ∷ 4 ∷ []) (some 0) 400).weights
        ≡ total (u16_of thousandths scores (some 0) 400))
build-total_example =
    build-total thousandths scores (6 ∷ 4 ∷ []) (some 0) 400 ((refl, tt), (tt, tt))
