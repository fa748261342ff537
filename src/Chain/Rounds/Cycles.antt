-- ===== src/Chain/Rounds/Cycles.antt =====
-- Release cycles.
use native.Mathlib.Nat.{div-add-mod', mod-lt}
use microtensor_subnet.Base.{
  ℕ, zero, suc, ◌+◌, ◌-◌, ◌*◌, ◌/◌, ◌%◌, ◌≤◌, ◌<◌, ◌≡◌, refl, ok, arith, eqb,
}
use microtensor_subnet.Base.Int.{pos}
use microtensor_subnet.Chain.Rounds.{
  cycle_of, release_index, is_release_boundary, rounds_until_release,
}

cycle_of-pos : (index every : ℕ) → 0 < every → cycle_of (pos index) (pos every) ≡ ok (index, every)
unfolding cycle_of
cycle_of-pos index zero h = absurd (omega arith)
cycle_of-pos index (suc every) h = refl

module _ (index every : ℕ) (some_round : 0 < every) where
  -- The round that is `rounds_until_release - 1` rounds ahead ends the cycle that the release index
  -- names; at least one round is left, and at most the whole cycle.
  pub rounds_until_release_lem :
      (left : ℕ) × (release : ℕ) × (rounds_until_release (pos index) (pos every) ≡ ok left)
      × (release_index (pos index) (pos every) ≡ ok release)
      × (1 ≤ left)
      × (left ≤ every)
      × (index + left ≡ release * every)
  unfolding rounds_until_release release_index
  rounds_until_release_lem =
      let below : index % every < every = mod-lt index some_round in
      let split = div-add-mod' index every in
      (
        every - index % every,
        index / every + 1,
        rw (cycle_of-pos index every some_round) refl,
        rw (cycle_of-pos index every some_round) refl,
        omega arith,
        omega arith,
        omega arith,
      )

  -- A round ends its cycle exactly if it is the only one left.
  pub is_release_boundary_lem :
      (left : ℕ)
      → rounds_until_release (pos index) (pos every) ≡ ok left
      → is_release_boundary (pos index) (pos every) ≡ ok (eqb left 1)
  unfolding rounds_until_release is_release_boundary
  is_release_boundary_lem left h =
      ground (arith, cycle_of-pos index every some_round, mod-lt index some_round)
