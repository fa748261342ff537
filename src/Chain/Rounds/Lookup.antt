-- ===== src/Chain/Rounds/Lookup.antt =====
-- The round of a block, and the cutoff of its release cycle.
use microtensor_subnet.Base.{
  ℕ, ◌+◌, ◌-◌, ◌*◌, ◌/◌, ◌≤◌, ◌<◌, ◌≡◌, refl, true, ok, arith, sym, ◌∙◌, ok-injective,
}
use microtensor_subnet.Base.Int.{
  ℤ, pos, pos_part, ◌+ℤ◌, ◌-ℤ◌, ◌*ℤ◌, ◌≤ℤ◌, +ℤ_parts, -ℤ_parts, eq_of_parts,
}
use microtensor_subnet.Chain.Clock.{floor_div-pos, div_bounds, pos-*ℤ-pos}
use microtensor_subnet.Chain.Rounds.{
  Round, end_block, close_block, contains, round_at, round_for_block, rounds_until_release,
  release_cutoff_block,
}
use microtensor_subnet.Chain.Rounds.Sealing.{checked_iff}
use microtensor_subnet.Chain.Rounds.Cycles.{rounds_until_release_lem}

module _ (l c d : ℕ) (genesis : ℤ) where
  -- The lengths and margins that `Round` accepts.
  pub record IsSchedule : Type 0 where
    pub close_pos : 0 < c
    pub close_lt : c < l
    pub deadline_lt : d < c

  abbrev pub at_index : ℕ → Round
  at_index i = record {
    index = pos i;
    start_block = genesis +ℤ pos i *ℤ pos l;
    length = pos l;
    close_margin = pos c;
    deadline_margin = pos d;
  }

  round_at-eq :
      IsSchedule → (i : ℕ) → round_at (pos i) (pos l) genesis (pos c) (pos d) ≡ ok (at_index i)
  unfolding round_at
  round_at-eq s i = (checked_iff (at_index i)).0 (record {
    index_nonneg = omega arith;
    long = omega arith;
    close_pos = omega arith;
    close_lt = omega arith;
    deadline_nonneg = omega arith;
    deadline_lt = omega arith;
  })

  contains-at_index :
      (i : ℕ) (block : ℤ)
      → genesis ≤ℤ block
      → i * l ≤ pos_part (block -ℤ genesis)
      → pos_part (block -ℤ genesis) < i * l + l
      → contains (at_index i) block ≡ true
  unfolding contains end_block
  contains-at_index i block after low high = rw (pos-*ℤ-pos i l) (
      let start = genesis +ℤ pos (i * l) in
      ground (
        arith,
        +ℤ_parts genesis (pos (i * l)),
        +ℤ_parts start (pos l),
        -ℤ_parts (start +ℤ pos l) (pos 1),
        -ℤ_parts block genesis,
      ))

  -- Every block from the genesis on has a round, and lies in it.
  pub round_for_block-contains :
      (block : ℤ)
      → IsSchedule
      → genesis ≤ℤ block
      → (r : Round) × (round_for_block block (pos l) genesis (pos c) (pos d) ≡ ok r)
        × (contains r block ≡ true)
  unfolding round_for_block
  round_for_block-contains block s after =
      let n = pos_part (block -ℤ genesis) in
      let i = n / l in
      let (low, high) = div_bounds n l (omega arith) in
      (
        at_index i,
        ground (arith, floor_div-pos n l, round_at-eq s i),
        contains-at_index i block after low high,
      )

  -- The cutoff of a release is the close block of the last round of the cycle: the round that is
  -- as many rounds ahead as are left after this one.
  pub release_cutoff_block_lem :
      (index every left : ℕ)
      → IsSchedule
      → 0 < every
      → rounds_until_release (pos index) (pos every) ≡ ok left
      → release_cutoff_block (pos index) (pos every) (pos l) genesis (pos c) (pos d)
        ≡ ok (close_block (at_index (index + left - 1)))
  unfolding release_cutoff_block
  release_cutoff_block_lem index every left s some_round known =
      let (left', release, until, cycle, one_left, _, total) =
        rounds_until_release_lem index every some_round in
      let same : left ≡ left' = ok-injective (sym known ∙ until) in
      let final : pos release *ℤ pos every -ℤ pos 1 ≡ pos (index + left - 1) =
        rw (pos-*ℤ-pos release every)
          (eq_of_parts _ _ (omega (arith, -ℤ_parts (pos (release * every)) (pos 1)))) in
      rw (cycle) (rw final (rw (round_at-eq s (index + left - 1)) refl))
