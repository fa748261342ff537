-- ===== src/Validator/Tickets/Spent.antt =====
-- What a ticket cost is what was answered on it.
use microtensor_subnet.Base.{
  ◌+◌, ◌≡◌, String, List, [], ◌∷◌, ◌++◌, ok, inl, inr, sum_of, arith, if◌then◌else◌, ◌==◌, eq_iff,
  Option-cases, raised,
}
use microtensor_subnet.Base.Dict.{get, get_or, get_or-put, get-pop}
use microtensor_subnet.Validator.Tickets.{
  Receipt, TicketDesk, complete, receipts_for, cost_for, forget, unknown_ticket,
}

sum_of-snoc :
    (r : Receipt) (rs : List Receipt)
    → sum_of (λ x. x.cost_micros) (rs ++ r ∷ []) ≡ sum_of (λ x. x.cost_micros) rs + r.cost_micros
sum_of-snoc r [] = omega arith
sum_of-snoc r (x ∷ rs) = omega (arith, sum_of-snoc r rs)

-- An answer adds its cost to the ticket that it was asked on, and to no other.
pub cost_for-complete :
    (answer : String → Receipt) (opaque other : String) (desk : TicketDesk)
    {next : TicketDesk × Receipt}
    → complete answer opaque desk ≡ ok next
    → cost_for other next.0
      ≡ cost_for other desk + (if opaque == other then next.1.cost_micros else 0)
unfolding complete cost_for receipts_for
cost_for-complete answer opaque other desk h = elim (Option-cases (get opaque desk.opaque)) [
  | inl e ↦ absurd (ground (arith, e))
  | inr (real, e) ↦ ground (
    arith,
    e,
    eq_iff opaque other,
    get_or-put opaque other (get_or opaque [] desk.spent ++ answer real ∷ []) desk.spent [],
    sum_of-snoc (answer real) (get_or opaque [] desk.spent),
  )
]

-- A forgotten ticket is refused from then on, and its cost stays known.
pub complete-forget :
    (answer : String → Receipt) (opaque : String) (desk : TicketDesk)
    → (complete answer opaque (forget opaque desk) ≡ raised unknown_ticket)
      × (cost_for opaque (forget opaque desk) ≡ cost_for opaque desk)
unfolding complete forget cost_for receipts_for
complete-forget answer opaque desk =
    ground (arith, get-pop opaque opaque desk.opaque, eq_iff opaque opaque)
