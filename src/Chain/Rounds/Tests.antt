-- ===== src/Chain/Rounds/Tests.antt =====
-- The default schedule of rounds.
use microtensor_subnet.Base.{◌+◌, ◌-◌, ◌≡◌, refl, true, [], ◌∷◌, ok, raised, arith}
use microtensor_subnet.Base.Int.{ℤ, pos, negsuc, ◌+ℤ◌, ◌-ℤ◌, ◌*ℤ◌}
use microtensor_subnet.Chain.Clock.{floor_div, bad_cycle}
use microtensor_subnet.Chain.Rounds.{
  Round, checked, end_block, close_block, contains, accepts_submissions, is_sealed, round_at,
  round_for_block, cycle_of, release_index, is_release_boundary, rounds_until_release,
  release_cutoff_block, blocks_until_release_cutoff, accepts_commitment,
}
use microtensor_subnet.Chain.Rounds.Sealing.{IsValid, checked_iff}
use microtensor_subnet.Chain.Rounds.Lookup.{IsSchedule, at_index, release_cutoff_block_lem}

abbrev genesis : ℤ
genesis = negsuc 17805487

abbrev first : Round
first = at_index 21600 7200 300 genesis 0

program : Unit {0}
unfolding checked round_at round_for_block contains accepts_submissions is_sealed cycle_of
    release_index is_release_boundary rounds_until_release release_cutoff_block
    blocks_until_release_cutoff close_block end_block floor_div ◌+ℤ◌ ◌-ℤ◌ ◌*ℤ◌ accepts_commitment
program = tt

default_IsSchedule : IsSchedule 21600 7200 300 genesis
default_IsSchedule = record {
  close_pos = omega arith;
  close_lt = omega arith;
  deadline_lt = omega arith;
}

first-checked : checked first ≡ ok first
unfolding program
first-checked = refl

first-IsValid : IsValid first
first-IsValid = (checked_iff first).1 first-checked

until_release : rounds_until_release (pos 31) (pos 30) ≡ ok 29
unfolding program
until_release = refl

no_cycle : rounds_until_release (pos 31) (pos 0) ≡ raised bad_cycle
unfolding program
no_cycle = refl

cutoff_of_first :
    blocks_until_release_cutoff (negsuc 17805487) (pos 30) (pos 21600) genesis (pos 7200) (pos 300)
    ≡ ok 640800
unfolding program
cutoff_of_first = refl

grace : accepts_commitment (pos 4) (pos 3) (pos 2 ∷ pos 3 ∷ []) ≡ true
unfolding program
grace = refl

release_cutoff_block_lem_example :
    release_cutoff_block (pos 31) (pos 30) (pos 21600) genesis (pos 7200) (pos 300)
    ≡ ok (close_block (at_index 21600 7200 300 genesis (31 + 29 - 1)))
release_cutoff_block_lem_example =
    release_cutoff_block_lem 21600 7200 300 genesis 31 30 29 default_IsSchedule (omega arith)
      until_release
