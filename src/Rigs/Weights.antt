-- ===== src/Rigs/Weights.antt =====
-- rigs/validator/scoring/weights.py: from the scores of uids to the weights that are set on chain. `F` is the type
-- of floating-point numbers. How scores are computed, and the calls of the chain, are not modelled.
pub mod Uids
pub mod Floored
pub mod Built
pub mod Tests
use Prim.Native.Nat.{◌-◌}
use microtensor_subnet.Base.{
  ℕ, Bool, true, false, not, List, [], ◌∷◌, Option, none, some, leb, ltb, eqb, ◌&&◌, ◌||◌, map,
  keep, max, if◌then◌else◌,
}
use microtensor_subnet.Base.Floats.{Floats}
use microtensor_subnet.Base.Sorting.{sort}
use microtensor_subnet.Chain.Weights.{positive, mass_from}
use microtensor_subnet.Rigs.Weights.Uids.{at, has, put}

abbrev pub u16_max : ℕ
u16_max = 65535

pub record WeightVector : Type 0 where
  pub uids : List ℕ
  pub weights : List ℕ
  pub floored : List ℕ
  pub reserve_uid : Option ℕ

-- the active uids without a weight, in their order, where the uids are a list without repetitions
unfoldable pub missing_of : List (ℕ × ℕ) → List ℕ → ℕ → List ℕ
unfolding sort has
missing_of u16 active_uids donor =
    sort leb (keep (λ uid. not (has uid u16) && not (eqb uid donor)) active_uids)

-- the loop over the missing uids
unfoldable pub floor_each : ℕ → List ℕ → List (ℕ × ℕ) → List ℕ × List (ℕ × ℕ)
unfolding at put
floor_each donor [] u16 = ([], u16)
floor_each donor (uid ∷ missing) u16 =
    let rest = floor_each donor missing (put uid 1 (put donor (at donor u16 - 1) u16)) in
    if leb (at donor u16) 1 then ([], u16) else (uid ∷ rest.0, rest.1)

-- `eligibility_floor`, with the dict that it leaves
unfoldable pub eligibility_floor : List (ℕ × ℕ) → List ℕ → Option ℕ → List ℕ × List (ℕ × ℕ)
unfolding floor_each missing_of has
eligibility_floor u16 active_uids none = ([], u16)
eligibility_floor u16 active_uids (some donor) =
    if has donor u16 then floor_each donor (missing_of u16 active_uids donor) u16 else ([], u16)

module _ {F : Type 0} (f : Floats F) where
  -- `normalise`
  unfoldable pub normalise : List (ℕ × F) → List (ℕ × F)
  normalise scores =
      let total = mass_from f (f.of_ℕ 0) (positive f scores) in
      if f.le total (f.of_ℕ 0) then [] else map (λ e. (e.0, f.div e.1 total)) (positive f scores)

  -- max(a, b) and min(a, b), which give the first of equals
  abbrev larger : F → F → F
  larger a b = if f.lt a b then b else a

  abbrev smaller : F → F → F
  smaller a b = if f.lt b a then b else a

  -- what follows where something is held
  abbrev scaled : ℕ → F → List (ℕ × F) → List (ℕ × F)
  scaled reserve held shares =
      let others =
        map (λ e. (e.0, f.mul e.1 (f.sub (f.of_ℕ 1) held)))
          (keep (λ e. not (eqb e.0 reserve)) shares) in
      put reserve (f.add (f.of_ℕ 0) held) others

  -- `with_reserve`
  unfoldable pub with_reserve : List (ℕ × F) → Option ℕ → F → List (ℕ × F)
  unfolding put
  with_reserve shares none held_share = shares
  with_reserve shares (some reserve) held_share =
      if f.le held_share (f.of_ℕ 0)
      then shares
      else scaled reserve (smaller (larger held_share (f.of_ℕ 0)) (f.of_ℕ 1)) shares

  -- max(shares.values())
  abbrev pub top_from : F → List (ℕ × F) → F
  top_from top [] = top
  top_from top (e ∷ shares) = top_from (larger top e.1) shares

  -- round(value / top * U16_MAX), and at least one
  abbrev pub to_weight : F → F → ℕ
  to_weight top value = max 1 (f.round (f.mul (f.div value top) (f.of_ℕ u16_max)))

  -- `to_u16`
  unfoldable pub to_u16 : List (ℕ × F) → List (ℕ × ℕ)
  to_u16 [] = []
  to_u16 (e ∷ shares) =
      let top = top_from e.1 shares in
      if f.le top (f.of_ℕ 0)
      then []
      else map (λ s. (s.0, to_weight top s.1)) (keep (λ s. not (f.le s.1 (f.of_ℕ 0))) (e ∷ shares))

  -- the weights before the floor
  unfoldable pub u16_of : List (ℕ × F) → Option ℕ → F → List (ℕ × ℕ)
  unfolding normalise with_reserve to_u16
  u16_of scores reserve_uid held_share =
      to_u16 (with_reserve (normalise scores) reserve_uid held_share)

  -- `build`
  unfoldable pub build : List (ℕ × F) → List ℕ → Option ℕ → F → WeightVector
  unfolding u16_of eligibility_floor sort
  build scores active_uids reserve_uid held_share =
      let (floored, u16) =
        eligibility_floor (u16_of scores reserve_uid held_share) active_uids reserve_uid in
      let ordered = sort (λ a b. leb a.0 b.0) u16 in
      record {
        uids = map (λ e. e.0) ordered;
        weights = map (λ e. e.1) ordered;
        floored = floored;
        reserve_uid = reserve_uid;
      }
