-- ===== src/Validator/Collect/Fees.antt =====
-- validator/collect.py, `fee_ok`.
use microtensor_subnet.Base.{
  ℕ, ◌≡◌, ◌≤◌, refl, String, Bool, true, false, not, Option, none, some, Result, ok, raised, ltb,
  ◌||◌, ◌&&◌, ◌⊎◌, ◌==◌, if◌then◌else◌, arith, eq_iff,
}
use microtensor_subnet.Base.Text.{is_blank}
use microtensor_subnet.Validator.Collect.{Candidate, Client, TransferEvent}

-- The texts that `fee_ok` returns; "" is `none`.
pub data FeeProblem : Type 0 where
  unreadable invalid_transfer : String → FeeProblem
  paid_elsewhere below_fee sent_by_other : FeeProblem

-- the tests of a transfer that was read
unfoldable pub transfer_problem : TransferEvent → String → String → ℕ → Option FeeProblem
transfer_problem event coldkey pay_to fee_rao =
    if not event.is_ok
    then some (invalid_transfer event.reason)
    else (if not (event.recipient == pay_to)
        then some paid_elsewhere
        else (if ltb event.amount_rao fee_rao
            then some below_fee
            else (if not (is_blank coldkey) && not (event.payer == coldkey)
                then some sent_by_other
                else none)))

-- `fee_ok`. The fee of the arena is in floating point: `is_free` is `fee_tao <= 0`, and `fee_rao` is
-- `round(fee_tao * RAO_PER_TAO)`.
unfoldable pub fee_ok : Client → Candidate → String → Bool → ℕ → Option FeeProblem
unfolding transfer_problem
fee_ok client candidate pay_to is_free fee_rao =
    if is_free || is_blank pay_to
    then none
    else elim (client.transfer_at candidate.commitment.fee_block candidate.commitment.fee_index) [
      | raised reason ↦ some (unreadable reason)
      | ok event ↦ transfer_problem event candidate.coldkey pay_to fee_rao
    ]

-- A transfer that pays the fee of the candidate.
pub record Pays (event : TransferEvent) (candidate : Candidate) (pay_to : String) (fee_rao : ℕ)
    : Type 0 where
  pub went_through : event.is_ok ≡ true
  pub to_arena : event.recipient ≡ pay_to
  pub enough : fee_rao ≤ event.amount_rao
  pub from_miner : (is_blank candidate.coldkey ≡ true) ⊎ (event.payer ≡ candidate.coldkey)

transfer_problem-Pays :
    (event : TransferEvent) (candidate : Candidate) (pay_to : String) (fee_rao : ℕ)
    → transfer_problem event candidate.coldkey pay_to fee_rao ≡ none
    → Pays event candidate pay_to fee_rao
unfolding transfer_problem
transfer_problem-Pays event candidate pay_to fee_rao h = record {
  went_through = ground arith;
  to_arena = ground (arith, eq_iff event.recipient pay_to);
  enough = ground arith;
  from_miner = ground (arith, eq_iff event.payer candidate.coldkey);
}

-- Where the arena has a fee and an account to pay it to, a candidate without a fee problem cites a
-- transfer on chain that went through, to that account, of at least the fee, and from the coldkey of
-- the candidate if that is known.
pub fee_ok-Pays :
    (client : Client) (candidate : Candidate) (pay_to : String) (fee_rao : ℕ)
    → is_blank pay_to ≡ false
    → fee_ok client candidate pay_to false fee_rao ≡ none
    → (event : TransferEvent) × (client.transfer_at candidate.commitment.fee_block
          candidate.commitment.fee_index
        ≡ ok event)
      × Pays event candidate pay_to fee_rao
unfolding fee_ok
fee_ok-Pays client candidate pay_to fee_rao named h =
    by_answer (client.transfer_at candidate.commitment.fee_block candidate.commitment.fee_index)
      refl
  where
    by_answer :
        (answer : Result String TransferEvent)
        → client.transfer_at candidate.commitment.fee_block candidate.commitment.fee_index ≡ answer
        → (event : TransferEvent) × (client.transfer_at candidate.commitment.fee_block
              candidate.commitment.fee_index
            ≡ ok event)
          × Pays event candidate pay_to fee_rao
    by_answer (raised reason) e = absurd (ground (arith, e, h, named))
    by_answer (ok event) e = (
      event,
      e,
      transfer_problem-Pays event candidate pay_to fee_rao (ground (arith, e, h, named)),
    )
