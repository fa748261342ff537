-- ===== src/Rigs/Weights/Built.antt =====
-- rigs/validator/scoring/weights.py: the weights that are built.
use microtensor_subnet.Base.{
  ℕ, ◌-◌, ◌≤◌, ◌≡◌, refl, sym, ◌∙◌, inl, inr, List, [], ◌∷◌, Option, none, some, leb, eqb, map,
  length, sum_of, if◌then◌else◌, arith, All, Bool-cases,
}
use microtensor_subnet.Base.Floats.{Floats}
use microtensor_subnet.Base.Sorting.{sort, sum_of-sort, sort-All}
use microtensor_subnet.Chain.Weights.Counted.{IsUnique, sum_of-map, length-map}
use microtensor_subnet.Rigs.Weights.Uids.{at, has, put, total}
use microtensor_subnet.Rigs.Weights.{
  floor_each, missing_of, eligibility_floor, build, u16_of, to_u16, to_weight, top_from,
}
use microtensor_subnet.Rigs.Weights.Floored.{given_one, eligibility_floor-IsFloored}

-- Every uid has some weight.
abbrev ArePositive : List (ℕ × ℕ) → Type 0
ArePositive d = All (λ e. 1 ≤ e.1) d

put-ArePositive : (uid v : ℕ) (d : List (ℕ × ℕ)) → 1 ≤ v → ArePositive d → ArePositive (put uid v d)
unfolding put
put-ArePositive uid v [] h hs = (h, tt)
put-ArePositive uid v (e ∷ d) h (this, hs) = elim (Bool-cases (eqb e.0 uid)) [
  | inl same ↦ rw (same, if◌then◌else◌) (h, hs)
  | inr apart ↦ rw (apart, if◌then◌else◌) (this, put-ArePositive uid v d h hs)
]

floor_each-ArePositive :
    (donor : ℕ) (missing : List ℕ) (u16 : List (ℕ × ℕ))
    → ArePositive u16
    → ArePositive (floor_each donor missing u16).1
unfolding floor_each
floor_each-ArePositive donor [] u16 hs = hs
floor_each-ArePositive donor (uid ∷ missing) u16 hs = elim (Bool-cases (leb (at donor u16) 1)) [
  | inl e ↦ rw (e, if◌then◌else◌) hs
  | inr e ↦
      rw (e, if◌then◌else◌)
        (floor_each-ArePositive donor missing (given_one donor uid u16) (
          put-ArePositive uid 1 _ (omega arith)
            (put-ArePositive donor (at donor u16 - 1) u16 (ground (arith, e)) hs)))
]

eligibility_floor-ArePositive :
    (u16 : List (ℕ × ℕ)) (active_uids : List ℕ) (donor : Option ℕ)
    → ArePositive u16
    → ArePositive (eligibility_floor u16 active_uids donor).1
unfolding eligibility_floor
eligibility_floor-ArePositive u16 active_uids none hs = hs
eligibility_floor-ArePositive u16 active_uids (some donor) hs = elim (Bool-cases (has donor u16)) [
  | inl e ↦
      rw (e, if◌then◌else◌) (floor_each-ArePositive donor (missing_of u16 active_uids donor) u16 hs)
  | inr e ↦ rw (e, if◌then◌else◌) hs
]

module _ {F : Type 0} (f : Floats F) where
  map-ArePositive :
      (top : F) (shares : List (ℕ × F)) → ArePositive (map (λ s. (s.0, to_weight f top s.1)) shares)
  map-ArePositive top [] = tt
  map-ArePositive top (s ∷ shares) = (ground arith, map-ArePositive top shares)

  to_u16-ArePositive : (shares : List (ℕ × F)) → ArePositive (to_u16 f shares)
  unfolding to_u16
  to_u16-ArePositive [] = tt
  to_u16-ArePositive (e ∷ shares) = elim (Bool-cases (f.le (top_from f e.1 shares) (f.of_ℕ 0))) [
    | inl small ↦ rw (small, if◌then◌else◌) tt
    | inr large ↦ rw (large, if◌then◌else◌) (map-ArePositive (top_from f e.1 shares) _)
  ]

values-All : (d : List (ℕ × ℕ)) → ArePositive d → All (λ w. 1 ≤ w) (map (λ e. e.1) d)
values-All [] hs = tt
values-All (e ∷ d) (h, hs) = (h, values-All d hs)

total-eligibility_floor :
    (u16 : List (ℕ × ℕ)) (active_uids : List ℕ) (donor : Option ℕ)
    → IsUnique (λ uid. uid) active_uids
    → total (eligibility_floor u16 active_uids donor).1 ≡ total u16
unfolding eligibility_floor
total-eligibility_floor u16 active_uids none unique = refl
total-eligibility_floor u16 active_uids (some donor) unique = elim (Bool-cases (has donor u16)) [
  | inl e ↦ (eligibility_floor-IsFloored u16 active_uids donor unique e).whole
  | inr e ↦ rw (e, if◌then◌else◌) refl
]

-- Whatever the scores are, each weight that is built is at least one, there is one for each uid, and they
-- add up to what they added up to before the floor; if no active uid is given twice.
pub build-total :
    {F : Type 0} (f : Floats F) (scores : List (ℕ × F)) (active_uids : List ℕ)
    (reserve_uid : Option ℕ) (held_share : F)
    → IsUnique (λ uid. uid) active_uids
    → let v = build f scores active_uids reserve_uid held_share in
      All (λ w. 1 ≤ w) v.weights
      × (length v.uids ≡ length v.weights)
      × (sum_of (λ w. w) v.weights ≡ total (u16_of f scores reserve_uid held_share))
unfolding build u16_of
build-total f scores active_uids reserve_uid held_share unique =
    let u16 = u16_of f scores reserve_uid held_share in
    let after = (eligibility_floor u16 active_uids reserve_uid).1 in
    let ordered = sort (λ a b. leb a.0 b.0) after in
    (
      values-All ordered (
          sort-All (λ a b. leb a.0 b.0) (λ e. 1 ≤ e.1) after
            (eligibility_floor-ArePositive u16 active_uids reserve_uid (to_u16-ArePositive f _))),
      length-map (λ e. e.0) ordered ∙ sym (length-map (λ e. e.1) ordered),
      sum_of-map (λ e. e.1) (λ w. w) ordered
          ∙ sum_of-sort (λ a b. leb a.0 b.0) (λ e. e.1) after
          ∙ total-eligibility_floor u16 active_uids reserve_uid unique,
    )
