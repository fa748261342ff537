-- ===== src/Chain/Epochs.antt =====
-- chain/epochs.py: the phases of an epoch. `epoch_seed` and `assignment_seed` hash text and are
-- not modelled.
pub mod Phases
pub mod Lookup
pub mod Tests
use microtensor_subnet.Base.{
  ℕ, ◌*◌, Bool, true, false, Result, ok, raised, ◌>>=◌, ◌>>◌, raise_if, not, ◌&&◌, ltb,
}
use microtensor_subnet.Base.Int.{
  ℤ, pos, negsuc, pos_part, neg_part, ◌+ℤ◌, ◌-ℤ◌, ◌*ℤ◌, ltb_ℤ, leb_ℤ, at_least_zero,
}
use microtensor_subnet.Chain.Clock.{
  ClockError, negative_index, short, bad_commit_window, bad_settle_margin, before_first,
  before_genesis, floor_div,
}

abbrev pub default_epoch_blocks : ℤ
default_epoch_blocks = pos 50400

abbrev pub default_commit_blocks : ℤ
default_commit_blocks = pos 7200

abbrev pub default_settle_margin_blocks : ℤ
default_settle_margin_blocks = pos 300

abbrev pub block_time_seconds : ℕ
block_time_seconds = 12

pub record Epoch : Type 0 where
  pub index : ℤ
  pub start_block : ℤ
  pub length : ℤ
  pub commit_blocks : ℤ
  pub settle_margin : ℤ

-- `Epoch.__post_init__`
unfoldable pub checked : Epoch → Result ClockError Epoch
checked e = do
  raise_if (ltb_ℤ e.index (pos 0)) negative_index
  raise_if (ltb_ℤ e.length (pos 2)) short
  raise_if (not (ltb_ℤ (pos 0) e.commit_blocks && ltb_ℤ e.commit_blocks e.length)) bad_commit_window
  raise_if
      (not (leb_ℤ (pos 0) e.settle_margin && ltb_ℤ e.settle_margin (e.length -ℤ e.commit_blocks)))
      bad_settle_margin
  ok e

unfoldable pub end_block : Epoch → ℤ
end_block e = e.start_block +ℤ e.length -ℤ pos 1

unfoldable pub open_block : Epoch → ℤ
open_block e = e.start_block +ℤ e.commit_blocks

unfoldable pub close_block : Epoch → ℤ
close_block e = end_block e -ℤ e.settle_margin

unfoldable pub accepts_commitments : Epoch → ℤ → Bool
accepts_commitments e block = leb_ℤ e.start_block block && ltb_ℤ block (open_block e)

unfoldable pub window_open : Epoch → ℤ → Bool
window_open e block = leb_ℤ (open_block e) block && leb_ℤ block (close_block e)

unfoldable pub settling : Epoch → ℤ → Bool
settling e block = ltb_ℤ (close_block e) block && leb_ℤ block (end_block e)

unfoldable pub contains : Epoch → ℤ → Bool
contains e block = leb_ℤ e.start_block block && leb_ℤ block (end_block e)

unfoldable pub blocks_until_open : Epoch → ℤ → ℕ
blocks_until_open e block = at_least_zero (open_block e -ℤ block)

unfoldable pub blocks_until_close : Epoch → ℤ → ℕ
blocks_until_close e block = at_least_zero (close_block e -ℤ block)

unfoldable pub seconds_until_open : Epoch → ℤ → ℕ
unfolding blocks_until_open
seconds_until_open e block = blocks_until_open e block * block_time_seconds

unfoldable pub shift : Epoch → ℤ → Result ClockError Epoch
unfolding checked
shift e offset = do
  raise_if (ltb_ℤ (e.index +ℤ offset) (pos 0)) before_first
  checked (record {
    index = e.index +ℤ offset;
    start_block = e.start_block +ℤ offset *ℤ e.length;
    length = e.length;
    commit_blocks = e.commit_blocks;
    settle_margin = e.settle_margin;
  })

unfoldable pub next : Epoch → Result ClockError Epoch
unfolding shift
next e = shift e (pos 1)

unfoldable pub previous : Epoch → Result ClockError Epoch
unfolding shift
previous e = shift e (negsuc 0)

unfoldable pub epoch_at :
    (index length commit_blocks settle_margin genesis : ℤ) → Result ClockError Epoch
unfolding checked
epoch_at index length commit_blocks settle_margin genesis = checked (record {
  index = index;
  start_block = genesis +ℤ index *ℤ length;
  length = length;
  commit_blocks = commit_blocks;
  settle_margin = settle_margin;
})

unfoldable pub epoch_for_block :
    (block length commit_blocks settle_margin genesis : ℤ) → Result ClockError Epoch
epoch_for_block block length commit_blocks settle_margin genesis = do
  raise_if (ltb_ℤ block genesis) before_genesis
  index ← floor_div (pos_part (block -ℤ genesis)) length
  epoch_at index length commit_blocks settle_margin genesis
