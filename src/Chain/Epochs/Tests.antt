-- ===== src/Chain/Epochs/Tests.antt =====
-- The default schedule of epochs, from the genesis block -17805488.
use microtensor_subnet.Base.{◌≡◌, refl, true, false, ok, arith}
use microtensor_subnet.Base.Int.{ℤ, pos, negsuc, ◌+ℤ◌, ◌-ℤ◌, ◌*ℤ◌}
use microtensor_subnet.Chain.Clock.{floor_div}
use microtensor_subnet.Chain.Epochs.{
  Epoch, accepts_commitments, window_open, settling, contains, open_block, close_block, end_block,
  epoch_at, epoch_for_block, checked, blocks_until_open, blocks_until_close, seconds_until_open,
}
use microtensor_subnet.Chain.Epochs.Phases.{IsValid}
use microtensor_subnet.Chain.Epochs.Lookup.{
  IsSchedule, at_index, at_index-IsValid, epoch_for_block-contains,
}

abbrev genesis : ℤ
genesis = negsuc 17805487

program : Unit {0}
unfolding accepts_commitments window_open settling contains open_block close_block end_block
    epoch_for_block epoch_at checked floor_div ◌+ℤ◌ ◌-ℤ◌ ◌*ℤ◌ blocks_until_open blocks_until_close
    seconds_until_open
program = tt

abbrev first : Epoch
first = at_index 50400 7200 300 genesis 0

default_IsSchedule : IsSchedule 50400 7200 300 genesis
default_IsSchedule = record { long = omega arith; commit_pos = omega arith; room = omega arith }

first-IsValid : IsValid first
first-IsValid = at_index-IsValid 50400 7200 300 genesis default_IsSchedule 0

phases_of_first :
    (accepts_commitments first (negsuc 17805487) ≡ true)
    × (window_open first (negsuc 17798287) ≡ true)
    × (settling first (negsuc 17755088) ≡ true)
    × (contains first (negsuc 17755087) ≡ false)
unfolding program
phases_of_first = (refl, refl, refl, refl)

waiting_in_first :
    (blocks_until_open first (negsuc 17798297) ≡ 10)
    × (blocks_until_close first (pos 0) ≡ 0)
    × (seconds_until_open first (negsuc 17798297) ≡ 120)
unfolding program
waiting_in_first = (refl, refl, refl)

first_block_in_first : contains first (negsuc 17805487) ≡ true
unfolding program
first_block_in_first = refl

epoch_for_block-contains_example :
    (e : Epoch) × (epoch_for_block (pos 12) (pos 50400) (pos 7200) (pos 300) genesis ≡ ok e)
    × (contains e (pos 12) ≡ true)
epoch_for_block-contains_example =
    epoch_for_block-contains 50400 7200 300 genesis (pos 12) default_IsSchedule (omega arith)
