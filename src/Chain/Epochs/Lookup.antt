-- ===== src/Chain/Epochs/Lookup.antt =====
-- The epoch of a block, and the epoch after an epoch.
use microtensor_subnet.Base.{ℕ, ◌+◌, ◌*◌, ◌/◌, ◌≤◌, ◌<◌, ◌≡◌, refl, true, ok, arith}
use microtensor_subnet.Base.Int.{
  ℤ, pos, pos_part, ◌+ℤ◌, ◌-ℤ◌, ◌*ℤ◌, ◌≤ℤ◌, +ℤ_parts, -ℤ_parts, pos_mul_parts, eq_of_parts,
}
use microtensor_subnet.Chain.Clock.{div_bounds, pos-*ℤ-pos, periods_disjoint, floor_div-pos}
use microtensor_subnet.Chain.Epochs.{
  Epoch, checked, end_block, contains, next, epoch_at, epoch_for_block,
}
use microtensor_subnet.Chain.Epochs.Phases.{IsValid}

pub checked-eq : (e : Epoch) → IsValid e → checked e ≡ ok e
unfolding checked
checked-eq e v = ground arith

module _ (l c m : ℕ) (genesis : ℤ) where
  -- The lengths of a schedule that `Epoch` accepts.
  pub record IsSchedule : Type 0 where
    pub long : 2 ≤ l
    pub commit_pos : 0 < c
    pub room : c + m < l

  abbrev pub at_index : ℕ → Epoch
  at_index i = record {
    index = pos i;
    start_block = genesis +ℤ pos i *ℤ pos l;
    length = pos l;
    commit_blocks = pos c;
    settle_margin = pos m;
  }

  pub at_index-IsValid : IsSchedule → (i : ℕ) → IsValid (at_index i)
  at_index-IsValid s i = record {
    index_nonneg = omega arith;
    long = omega arith;
    commit_pos = omega arith;
    commit_lt = omega arith;
    margin_nonneg = omega arith;
    margin_lt = omega (arith, -ℤ_parts (pos l) (pos c));
  }

  epoch_at-eq :
      IsSchedule → (i : ℕ) → epoch_at (pos i) (pos l) (pos c) (pos m) genesis ≡ ok (at_index i)
  unfolding epoch_at
  epoch_at-eq s i = checked-eq (at_index i) (at_index-IsValid s i)

  -- A block is in the epoch of an index exactly if its distance from the genesis is in the period.
  contains-at_index :
      (i : ℕ) (block : ℤ)
      → genesis ≤ℤ block
      → (contains (at_index i) block ≡ true
          → (i * l ≤ pos_part (block -ℤ genesis)) × (pos_part (block -ℤ genesis) < i * l + l))
        × ((i * l ≤ pos_part (block -ℤ genesis)) × (pos_part (block -ℤ genesis) < i * l + l)
            → contains (at_index i) block ≡ true)
  unfolding contains end_block
  contains-at_index i block after = rw (pos-*ℤ-pos i l) (
      let start = genesis +ℤ pos (i * l) in
      ground (
        arith,
        +ℤ_parts genesis (pos (i * l)),
        +ℤ_parts start (pos l),
        -ℤ_parts (start +ℤ pos l) (pos 1),
        -ℤ_parts block genesis,
      ))

  -- Every block from the genesis on has an epoch, and lies in it.
  pub epoch_for_block-contains :
      (block : ℤ)
      → IsSchedule
      → genesis ≤ℤ block
      → (e : Epoch) × (epoch_for_block block (pos l) (pos c) (pos m) genesis ≡ ok e)
        × (contains e block ≡ true)
  unfolding epoch_for_block
  epoch_for_block-contains block s after =
      let i = pos_part (block -ℤ genesis) / l in
      (
        at_index i,
        ground (arith, floor_div-pos (pos_part (block -ℤ genesis)) l, epoch_at-eq s i),
        (contains-at_index i block after).1
            (div_bounds (pos_part (block -ℤ genesis)) l (omega arith)),
      )

  -- No block lies in the epochs of two indices.
  pub contains_unique :
      (block : ℤ) (i j : ℕ)
      → genesis ≤ℤ block
      → contains (at_index i) block ≡ true
      → contains (at_index j) block ≡ true
      → i ≡ j
  contains_unique block i j after in_i in_j =
      let (a, b) = (contains-at_index i block after).0 in_i in
      let (p, q) = (contains-at_index j block after).0 in_j in
      periods_disjoint (pos_part (block -ℤ genesis)) l i j a b p q

-- The next epoch begins with the block after the last one, and is valid.
pub next_follows :
    (e : Epoch)
    → IsValid e
    → (n : Epoch) × (next e ≡ ok n)
      × (n.start_block ≡ end_block e +ℤ pos 1)
      × (n.index ≡ e.index +ℤ pos 1)
      × IsValid n
unfolding next end_block
next_follows e v = (
  record {
    index = e.index +ℤ pos 1;
    start_block = e.start_block +ℤ pos 1 *ℤ e.length;
    length = e.length;
    commit_blocks = e.commit_blocks;
    settle_margin = e.settle_margin;
  },
  ground (arith, +ℤ_parts e.index (pos 1)),
  eq_of_parts _ _ (
      omega (
        arith,
        pos_mul_parts 1 e.length,
        +ℤ_parts e.start_block (pos 1 *ℤ e.length),
        +ℤ_parts e.start_block e.length,
        -ℤ_parts (e.start_block +ℤ e.length) (pos 1),
        +ℤ_parts (e.start_block +ℤ e.length -ℤ pos 1) (pos 1),
      )),
  refl,
  record {
    index_nonneg = omega (arith, +ℤ_parts e.index (pos 1), v.index_nonneg);
    long = v.long;
    commit_pos = v.commit_pos;
    commit_lt = v.commit_lt;
    margin_nonneg = v.margin_nonneg;
    margin_lt = v.margin_lt;
  },
)
