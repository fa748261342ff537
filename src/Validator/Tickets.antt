-- ===== src/Validator/Tickets.antt =====
-- validator/relay.py, `TicketDesk`: opaque tickets over those of the relay, and what each one cost.
-- What the relay gives out, and the random part of an opaque ticket, are arguments; a call that the
-- relay refuses leaves the desk as it was, and is no step.
pub mod Spent
use microtensor_subnet.Base.{
  ℕ, ◌+◌, String, List, [], ◌∷◌, ◌++◌, Option, none, some, Result, ok, raised, sum_of,
}
use microtensor_subnet.Base.Dict.{Dict, get, get_or, put, pop}

pub data RelayError : Type 0 where
  unknown_ticket : RelayError

-- the fields of a receipt that the desk reads
pub record Receipt : Type 0 where
  pub receipt : String
  pub cost_micros : ℕ

pub record TicketDesk : Type 0 where
  pub opaque : Dict String
  pub spent : Dict (List Receipt)

abbrev pub new_desk : TicketDesk
new_desk = record { opaque = []; spent = [] }

-- `issue`, with the relay's ticket and the new opaque one
unfoldable pub issue : String → String → TicketDesk → TicketDesk
issue opaque real desk = record {
  opaque = put opaque real desk.opaque;
  spent = put opaque [] desk.spent;
}

-- `complete`; the relay answers the ticket that stands behind the opaque one with a receipt
unfoldable pub complete :
    (String → Receipt) → String → TicketDesk → Result RelayError (TicketDesk × Receipt)
complete answer opaque desk = elim (get opaque desk.opaque) [
  | none ↦ raised unknown_ticket
  | some real ↦ ok (
    record desk { spent = put opaque (get_or opaque [] desk.spent ++ answer real ∷ []) desk.spent },
    answer real,
  )
]

unfoldable pub receipts_for : String → TicketDesk → List Receipt
receipts_for opaque desk = get_or opaque [] desk.spent

unfoldable pub cost_for : String → TicketDesk → ℕ
unfolding receipts_for
cost_for opaque desk = sum_of (λ r. r.cost_micros) (receipts_for opaque desk)

unfoldable pub forget : String → TicketDesk → TicketDesk
forget opaque desk = record desk { opaque = pop opaque desk.opaque }
