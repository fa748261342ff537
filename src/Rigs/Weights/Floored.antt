-- ===== src/Rigs/Weights/Floored.antt =====
-- rigs/validator/scoring/weights.py: what the eligibility floor takes and gives.
use microtensor_subnet.Base.{
  ℕ, zero, suc, ◌-◌, ◌≡◌, refl, sym, ◌∙◌, ap, inl, inr, true, false, not, List, [], ◌∷◌, some, leb,
  eqb, ◌&&◌, keep, take, length, if◌then◌else◌, arith, All, Bool-cases,
}
use microtensor_subnet.Base.Sorting.{sort-All}
use microtensor_subnet.Chain.Weights.{among}
use microtensor_subnet.Chain.Weights.Counted.{IsUnique, sort-IsUnique, keep-IsUnique}
use microtensor_subnet.Rigs.Weights.Uids.{
  at, has, put, total, at-put, has-put, total-put, at-absent,
}
use microtensor_subnet.Rigs.Weights.{floor_each, missing_of, eligibility_floor}

-- The uids that the floor is for: neither the donor nor of those with a weight.
abbrev AreMissing : ℕ → List (ℕ × ℕ) → List ℕ → Type 0
AreMissing donor u16 missing = All (λ uid. (eqb uid donor ≡ false) × (has uid u16 ≡ false)) missing

-- One uid is given its weight, at the donor's cost.
abbrev pub given_one : ℕ → ℕ → List (ℕ × ℕ) → List (ℕ × ℕ)
given_one donor uid u16 = put uid 1 (put donor (at donor u16 - 1) u16)

at-given_one :
    (donor uid other : ℕ) (u16 : List (ℕ × ℕ))
    → eqb uid donor ≡ false
    → at other (given_one donor uid u16)
      ≡ (if eqb uid other then 1 else if eqb other donor then at donor u16 - 1 else at other u16)
at-given_one donor uid other u16 ne =
    rw
      (
        at-put uid other 1 (put donor (at donor u16 - 1) u16),
        at-put donor other (at donor u16 - 1) u16,
      )
      (ground arith)

given_one-AreMissing :
    (donor uid : ℕ) (u16 : List (ℕ × ℕ)) (missing : List ℕ)
    → All (λ other. eqb uid other ≡ false) missing
    → AreMissing donor u16 missing
    → AreMissing donor (given_one donor uid u16) missing
given_one-AreMissing donor uid u16 [] fresh hs = tt
given_one-AreMissing donor uid u16 (other ∷ missing) (ne, fresh) (h, hs) = (
  (
    h.0,
    rw
        (
          has-put uid other 1 (put donor (at donor u16 - 1) u16),
          has-put donor other (at donor u16 - 1) u16,
          h.1,
        )
        (ground (arith, h.0)),
  ),
  given_one-AreMissing donor uid u16 missing fresh hs,
)

total-given_one :
    (donor uid : ℕ) (u16 : List (ℕ × ℕ))
    → eqb uid donor ≡ false
    → has uid u16 ≡ false
    → leb (at donor u16) 1 ≡ false
    → total (given_one donor uid u16) ≡ total u16
total-given_one donor uid u16 ne absent enough = ground (
  arith,
  total-put uid 1 (put donor (at donor u16 - 1) u16),
  total-put donor (at donor u16 - 1) u16,
  at-put donor uid (at donor u16 - 1) u16,
  at-absent uid u16 absent,
)

take-nil : (n : ℕ) → take {A = ℕ} n [] ≡ []
take-nil zero = refl
take-nil (suc n) = refl

take-none : (n : ℕ) (xs : List ℕ) → n ≡ 0 → take n xs ≡ []
take-none n xs h = rw h refl

take-one : (n m x : ℕ) (xs : List ℕ) → n ≡ suc m → take n (x ∷ xs) ≡ x ∷ take m xs
take-one n m x xs h = rw h refl

at_donor :
    (donor uid : ℕ) (u16 : List (ℕ × ℕ))
    → eqb uid donor ≡ false
    → at donor (given_one donor uid u16) ≡ at donor u16 - 1
at_donor donor uid u16 ne = at-given_one donor uid donor u16 ne ∙ ground (arith, ne)

-- What the floor leaves.
pub record IsFloored (donor : ℕ) (missing : List ℕ) (u16 after : List (ℕ × ℕ)) (floored : List ℕ)
    : Type 0 where
  pub first : floored ≡ take (at donor u16 - 1) missing
  pub weights :
      (uid : ℕ)
      → at uid after ≡ (
          if among uid floored
          then 1
          else if eqb uid donor
          then at donor u16 - length floored
          else at uid u16)
  pub whole : total after ≡ total u16

floor_each-IsFloored :
    (donor : ℕ) (missing : List ℕ) (u16 : List (ℕ × ℕ))
    → IsUnique (λ uid. uid) missing
    → AreMissing donor u16 missing
    → IsFloored donor missing u16 (floor_each donor missing u16).1 (floor_each donor missing u16).0
unfolding floor_each
floor_each-IsFloored donor [] u16 unique hs = record {
  first = sym (take-nil (at donor u16 - 1));
  weights = λ uid. ground arith;
  whole = refl;
}
floor_each-IsFloored donor (uid ∷ missing) u16 (fresh, unique) (h, hs) =
    elim (Bool-cases (leb (at donor u16) 1)) [
      | inl e ↦
          rw (e, if◌then◌else◌)
            (record {
              first = sym (take-none (at donor u16 - 1) (uid ∷ missing) (ground (arith, e)));
              weights = λ other. ground arith;
              whole = refl;
            })
      | inr e ↦
          let ih =
            floor_each-IsFloored donor missing (given_one donor uid u16) unique
              (given_one-AreMissing donor uid u16 missing fresh hs) in
          rw (e, if◌then◌else◌)
            (record {
              first =
                  rw
                    (take-one (at donor u16 - 1) (at donor u16 - 1 - 1) uid missing
                      (ground (arith, e)))
                    (ap (λ n. uid ∷ n)
                      (ih.first ∙ ap (λ n. take (n - 1) missing) (at_donor donor uid u16 h.0)));
              weights = λ other. ground (
                arith,
                ih.weights other,
                at-given_one donor uid other u16 h.0,
                at-given_one donor uid donor u16 h.0,
                h.0,
              );
              whole = ih.whole ∙ total-given_one donor uid u16 h.0 h.1 e;
            })
    ]

missing_of-AreMissing :
    (u16 : List (ℕ × ℕ)) (active_uids : List ℕ) (donor : ℕ)
    → AreMissing donor u16 (missing_of u16 active_uids donor)
unfolding missing_of
missing_of-AreMissing u16 active_uids donor = sort-All leb _ _ (kept active_uids)
  where
    kept :
        (uids : List ℕ)
        → All
            (λ uid. (eqb uid donor ≡ false) × (has uid u16 ≡ false))
            (keep (λ uid. not (has uid u16) && not (eqb uid donor)) uids)
    kept [] = tt
    kept (uid ∷ uids) = elim (Bool-cases (not (has uid u16) && not (eqb uid donor))) [
      | inl e ↦ rw (e, if◌then◌else◌) ((ground (arith, e), ground (arith, e)), kept uids)
      | inr e ↦ rw (e, if◌then◌else◌) (kept uids)
    ]

missing_of-IsUnique :
    (u16 : List (ℕ × ℕ)) (active_uids : List ℕ) (donor : ℕ)
    → IsUnique (λ uid. uid) active_uids
    → IsUnique (λ uid. uid) (missing_of u16 active_uids donor)
unfolding missing_of
missing_of-IsUnique u16 active_uids donor unique =
    sort-IsUnique (λ uid. uid) leb _ (keep-IsUnique (λ uid. uid) _ active_uids unique)

pub eligibility_floor-IsFloored :
    (u16 : List (ℕ × ℕ)) (active_uids : List ℕ) (donor : ℕ)
    → IsUnique (λ uid. uid) active_uids
    → has donor u16 ≡ true
    → IsFloored donor
        (missing_of u16 active_uids donor)
        u16
        (eligibility_floor u16 active_uids (some donor)).1
        (eligibility_floor u16 active_uids (some donor)).0
unfolding eligibility_floor
eligibility_floor-IsFloored u16 active_uids donor unique h =
    rw (h, if◌then◌else◌)
      (floor_each-IsFloored donor (missing_of u16 active_uids donor) u16
        (missing_of-IsUnique u16 active_uids donor unique)
        (missing_of-AreMissing u16 active_uids donor))
