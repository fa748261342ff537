-- ===== src/Chain/Rounds/Sealing.antt =====
-- The windows of a valid round.
use microtensor_subnet.Base.{◌≡◌, true, ok, arith, not}
use microtensor_subnet.Base.Int.{ℤ, pos, ◌+ℤ◌, ◌-ℤ◌, ◌≤ℤ◌, ◌<ℤ◌, +ℤ_parts, -ℤ_parts}
use microtensor_subnet.Chain.Rounds.{
  Round, checked, end_block, close_block, deadline_block, evaluation_blocks, contains,
  accepts_submissions, is_sealed,
}

-- What `Round.__post_init__` accepts.
pub record IsValid (r : Round) : Type 0 where
  pub index_nonneg : pos 0 ≤ℤ r.index
  pub long : pos 1 ≤ℤ r.length
  pub close_pos : pos 0 <ℤ r.close_margin
  pub close_lt : r.close_margin <ℤ r.length
  pub deadline_nonneg : pos 0 ≤ℤ r.deadline_margin
  pub deadline_lt : r.deadline_margin <ℤ r.close_margin

-- Exactly the rounds whose numbers are in range are accepted, and they are not changed.
pub checked_iff : (r : Round) → (IsValid r → checked r ≡ ok r) × (checked r ≡ ok r → IsValid r)
unfolding checked
checked_iff r = (λ v. ground arith, λ h. ground arith)

-- In a valid round a block is open for submissions or sealed, never both; there is time to
-- evaluate between the close and the deadline, and the deadline is not after the end.
pub round_windows :
    (r : Round) (block : ℤ)
    → IsValid r
    → (contains r block ≡ true → accepts_submissions r block ≡ not (is_sealed r block))
      × (accepts_submissions r block ≡ true → contains r block ≡ true)
      × (pos 1 ≤ℤ evaluation_blocks r)
      × (close_block r ≤ℤ deadline_block r)
      × (deadline_block r ≤ℤ end_block r)
unfolding contains accepts_submissions is_sealed evaluation_blocks deadline_block close_block
    end_block
round_windows r block v =
    let after = r.start_block +ℤ r.length in
    let last = after -ℤ pos 1 in
    let close = after -ℤ r.close_margin in
    let deadline = last -ℤ r.deadline_margin in
    let a = +ℤ_parts r.start_block r.length in
    let b = -ℤ_parts after (pos 1) in
    let c = -ℤ_parts after r.close_margin in
    let d = -ℤ_parts last r.deadline_margin in
    let e = -ℤ_parts deadline close in
    let f = +ℤ_parts (deadline -ℤ close) (pos 1) in
    (λ h. ground arith, λ h. ground arith, omega arith, omega arith, omega arith)
