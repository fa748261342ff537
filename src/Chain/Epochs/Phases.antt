-- ===== src/Chain/Epochs/Phases.antt =====
-- The phases of a valid epoch divide its blocks.
use microtensor_subnet.Base.{ℕ, ◌+◌, ◌≡◌, Bool, ok, arith, if◌then◌else◌}
use microtensor_subnet.Base.Int.{ℤ, pos, ◌+ℤ◌, ◌-ℤ◌, ◌≤ℤ◌, ◌<ℤ◌, +ℤ_parts, -ℤ_parts}
use microtensor_subnet.Chain.Epochs.{
  Epoch, checked, end_block, open_block, close_block, accepts_commitments, window_open, settling,
  contains,
}

-- What `Epoch.__post_init__` accepts.
pub record IsValid (e : Epoch) : Type 0 where
  pub index_nonneg : pos 0 ≤ℤ e.index
  pub long : pos 2 ≤ℤ e.length
  pub commit_pos : pos 0 <ℤ e.commit_blocks
  pub commit_lt : e.commit_blocks <ℤ e.length
  pub margin_nonneg : pos 0 ≤ℤ e.settle_margin
  pub margin_lt : e.settle_margin <ℤ e.length -ℤ e.commit_blocks

pub checked-IsValid : (e : Epoch) {d : Epoch} → checked e ≡ ok d → IsValid d
unfolding checked
checked-IsValid e h = ground arith

abbrev pub one_if : Bool → ℕ
one_if b = if b then 1 else 0

-- A block of a valid epoch is in exactly one phase, and a block outside it in none.
pub phases_partition :
    (e : Epoch) (block : ℤ)
    → IsValid e
    → one_if (accepts_commitments e block)
        + one_if (window_open e block)
        + one_if (settling e block)
      ≡ one_if (contains e block)
unfolding accepts_commitments window_open settling contains open_block close_block end_block
phases_partition e block v = ground (
  arith,
  +ℤ_parts e.start_block e.commit_blocks,
  +ℤ_parts e.start_block e.length,
  -ℤ_parts (e.start_block +ℤ e.length) (pos 1),
  -ℤ_parts (e.start_block +ℤ e.length -ℤ pos 1) e.settle_margin,
  -ℤ_parts e.length e.commit_blocks,
)
