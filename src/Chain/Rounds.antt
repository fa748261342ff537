-- ===== src/Chain/Rounds.antt =====
-- chain/rounds.py: rounds of submissions and the release cycles that they make up.
pub mod Sealing
pub mod Lookup
pub mod Cycles
pub mod Tests
use microtensor_subnet.Base.{
  ℕ, zero, suc, ◌+◌, ◌-◌, ◌*◌, ◌/◌, ◌%◌, Bool, true, false, List, [], ◌∷◌, Result, ok, raised,
  ◌>>=◌, ◌>>◌, raise_if, not, ◌&&◌, ◌||◌, eqb,
}
use microtensor_subnet.Base.Int.{
  ℤ, pos, negsuc, pos_part, neg_part, ◌+ℤ◌, ◌-ℤ◌, ◌*ℤ◌, ltb_ℤ, leb_ℤ, at_least_zero,
}
use microtensor_subnet.Chain.Clock.{
  ClockError, negative_index, short, bad_close_margin, bad_deadline_margin, before_first,
  before_genesis, bad_cycle, floor_div,
}

abbrev pub block_time_seconds : ℕ
block_time_seconds = 12

pub record Round : Type 0 where
  pub index : ℤ
  pub start_block : ℤ
  pub length : ℤ
  pub close_margin : ℤ
  pub deadline_margin : ℤ

-- `Round.__post_init__`
unfoldable pub checked : Round → Result ClockError Round
checked r = do
  raise_if (ltb_ℤ r.index (pos 0)) negative_index
  raise_if (ltb_ℤ r.length (pos 1)) short
  raise_if (not (ltb_ℤ (pos 0) r.close_margin && ltb_ℤ r.close_margin r.length)) bad_close_margin
  raise_if (not (leb_ℤ (pos 0) r.deadline_margin && ltb_ℤ r.deadline_margin r.close_margin))
      bad_deadline_margin
  ok r

unfoldable pub end_block : Round → ℤ
end_block r = r.start_block +ℤ r.length -ℤ pos 1

unfoldable pub close_block : Round → ℤ
close_block r = r.start_block +ℤ r.length -ℤ r.close_margin

unfoldable pub seed_block : Round → ℤ
seed_block r = close_block r

unfoldable pub deadline_block : Round → ℤ
deadline_block r = end_block r -ℤ r.deadline_margin

unfoldable pub evaluation_blocks : Round → ℤ
evaluation_blocks r = deadline_block r -ℤ close_block r +ℤ pos 1

unfoldable pub contains : Round → ℤ → Bool
contains r block = leb_ℤ r.start_block block && leb_ℤ block (end_block r)

unfoldable pub accepts_submissions : Round → ℤ → Bool
accepts_submissions r block = leb_ℤ r.start_block block && ltb_ℤ block (close_block r)

unfoldable pub is_sealed : Round → ℤ → Bool
is_sealed r block = leb_ℤ (close_block r) block

unfoldable pub blocks_until_close : Round → ℤ → ℕ
blocks_until_close r block = at_least_zero (close_block r -ℤ block)

unfoldable pub blocks_until_deadline : Round → ℤ → ℕ
blocks_until_deadline r block = at_least_zero (deadline_block r -ℤ block)

unfoldable pub seconds_until_close : Round → ℤ → ℕ
seconds_until_close r block = blocks_until_close r block * block_time_seconds

unfoldable pub seconds_until_deadline : Round → ℤ → ℕ
seconds_until_deadline r block = blocks_until_deadline r block * block_time_seconds

unfoldable pub shift : Round → ℤ → Result ClockError Round
unfolding checked
shift r offset = do
  raise_if (ltb_ℤ (r.index +ℤ offset) (pos 0)) before_first
  checked (record {
    index = r.index +ℤ offset;
    start_block = r.start_block +ℤ offset *ℤ r.length;
    length = r.length;
    close_margin = r.close_margin;
    deadline_margin = r.deadline_margin;
  })

unfoldable pub round_at :
    (index length genesis close_margin deadline_margin : ℤ) → Result ClockError Round
round_at index length genesis close_margin deadline_margin = checked (record {
  index = index;
  start_block = genesis +ℤ index *ℤ length;
  length = length;
  close_margin = close_margin;
  deadline_margin = deadline_margin;
})

unfoldable pub round_for_block :
    (block length genesis close_margin deadline_margin : ℤ) → Result ClockError Round
round_for_block block length genesis close_margin deadline_margin = do
  raise_if (ltb_ℤ block genesis) before_genesis
  index ← floor_div (pos_part (block -ℤ genesis)) length
  round_at index length genesis close_margin deadline_margin

-- The two checks of the functions on cycles; what they accept is a pair of natural numbers.
unfoldable pub cycle_of : ℤ → ℤ → Result ClockError (ℕ × ℕ)
cycle_of (negsuc n) every = raised negative_index
cycle_of (pos index) (negsuc n) = raised bad_cycle
cycle_of (pos index) (pos zero) = raised bad_cycle
cycle_of (pos index) (pos (suc every)) = ok (index, suc every)

unfoldable pub release_index : ℤ → ℤ → Result ClockError ℕ
release_index round_index every = do c ← cycle_of round_index every; ok (c.0 / c.1 + 1)

unfoldable pub is_release_boundary : ℤ → ℤ → Result ClockError Bool
is_release_boundary round_index every = do
  c ← cycle_of round_index every
  ok (eqb (c.0 % c.1) (c.1 - 1))

unfoldable pub rounds_until_release : ℤ → ℤ → Result ClockError ℕ
rounds_until_release round_index every = do c ← cycle_of round_index every; ok (c.1 - c.0 % c.1)

unfoldable pub release_cutoff_block :
    (round_index every length genesis close_margin deadline_margin : ℤ) → Result ClockError ℤ
release_cutoff_block round_index every length genesis close_margin deadline_margin = do
  release ← release_index round_index every
  final ← round_at (pos release *ℤ every -ℤ pos 1) length genesis close_margin deadline_margin
  ok (close_block final)

unfoldable pub blocks_until_release_cutoff :
    (block every length genesis close_margin deadline_margin : ℤ) → Result ClockError ℕ
blocks_until_release_cutoff block every length genesis close_margin deadline_margin = do
  current ← round_for_block block length genesis close_margin deadline_margin
  cutoff ← release_cutoff_block current.index every length genesis close_margin deadline_margin
  ok (at_least_zero (cutoff -ℤ block))

-- named in also
abbrev pub one_of : ℤ → List ℤ → Bool
one_of n [] = false
one_of n (m ∷ ms) = leb_ℤ n m && leb_ℤ m n || one_of n ms

unfoldable pub accepts_commitment : ℤ → ℤ → List ℤ → Bool
accepts_commitment round_index named also =
    leb_ℤ named round_index && leb_ℤ round_index named || one_of named also
