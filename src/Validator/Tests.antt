-- ===== src/Validator/Tests.antt =====
-- A small run of each: a tally of four steps, a reporter with two miners, a desk with one ticket.
use microtensor_subnet.Base.{
  ◌+◌, ◌≤◌, ◌≡◌, refl, String, true, List, [], ◌∷◌, none, ok, arith, length, add_to_set,
  if◌then◌else◌, ◌==◌,
}
use microtensor_subnet.Base.Int.{pos, negsuc}
use microtensor_subnet.Base.Dict.{get, get_or, put, pop}
use microtensor_subnet.Validator.Tally.{level_of, emit, new_tally, advance, mark, over}
use microtensor_subnet.Validator.Progress.{
  progress, result, Move, new_reporter, queue_limit, append, enqueue, post, publish, settle, close,
  pick, send_result, move, moves, posts, publishes, settles, picks, sends,
}
use microtensor_subnet.Validator.Progress.Quiet.{
  moves-bounded, IsQuiet, StaysQuiet, moves-StaysQuiet, results_of,
}
use microtensor_subnet.Validator.Tickets.{
  Receipt, TicketDesk, new_desk, issue, complete, receipts_for, cost_for, forget,
}
use microtensor_subnet.Validator.Tickets.Spent.{cost_for-complete}

program : Unit {0}
unfolding level_of emit new_tally advance mark over append enqueue post publish settle close pick
    send_result move moves issue complete receipts_for cost_for forget get get_or put pop add_to_set
    results_of
program = tt

-- Four steps on a scale of two show 0, 1 and 2.
tally_of_four :
    (over 4 (new_tally true 2 4)).calls
    ≡ record { shown = 2; total = 2; detail = none }
      ∷ record { shown = 1; total = 2; detail = none }
      ∷ record { shown = 0; total = 2; detail = none }
      ∷ []
unfolding program
tally_of_four = refl

abbrev before : List Move
before =
    publishes "a" "r1"
    ∷ posts "b" "queued" (negsuc 2) (pos 4) [] none 3
    ∷ posts "b" "queued" (pos 1) (pos 4) [] none 9
    ∷ posts "b" "lost" (pos 1) (pos 4) [] none 90
    ∷ picks
    ∷ picks
    ∷ sends "a"
    ∷ publishes "a" "r2"
    ∷ settles "a"
    ∷ []

abbrev after : List Move
after = publishes "a" "r3" ∷ publishes "b" "r4" ∷ picks ∷ sends "b" ∷ sends "a" ∷ []

-- The second report comes too soon, the third names no stage, and the last result of a is withdrawn.
sent_of_moves :
    (moves after (moves before (new_reporter true))).sent
    ≡ progress
        (record { miner = "b"; stage = "queued"; done = 0; total = 4; note = []; detail = none })
      ∷ result "a" "r1"
      ∷ result "b" "r4"
      ∷ []
unfolding program
sent_of_moves = refl

moves-bounded_example : length (moves before (new_reporter true)).pending ≤ queue_limit
moves-bounded_example = moves-bounded before (new_reporter true) (omega arith)

settled_IsQuiet : IsQuiet "a" (moves before (new_reporter true))
unfolding program
settled_IsQuiet = record { settled = refl; none_waits = refl; none_sent = refl }

moves-StaysQuiet_example :
    StaysQuiet "a"
      (moves before (new_reporter true))
      (moves after (moves before (new_reporter true)))
moves-StaysQuiet_example =
    moves-StaysQuiet "a" after (moves before (new_reporter true)) settled_IsQuiet

abbrev desk : TicketDesk
desk = issue "mtk_1" "real" new_desk

abbrev receipt : String → Receipt
receipt real = record { receipt = real; cost_micros = 7 }

abbrev paid : TicketDesk
paid = record desk { spent = put "mtk_1" (receipt "real" ∷ []) desk.spent }

complete_once : complete receipt "mtk_1" desk ≡ ok (paid, receipt "real")
unfolding program
complete_once = refl

cost_for-complete_example :
    cost_for "mtk_1" paid ≡ cost_for "mtk_1" desk + (if "mtk_1" == "mtk_1" then 7 else 0)
cost_for-complete_example =
    cost_for-complete receipt "mtk_1" "mtk_1" desk {next = (paid, receipt "real")} complete_once
