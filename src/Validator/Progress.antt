-- ===== src/Validator/Progress.antt =====
-- validator/progress.py, `Reporter`: what waits to be sent, and the thread that sends it. Each
-- operation holds the lock throughout, so an interleaving is a sequence of operations; `settle` has
-- two: the part before it waits, and the test that it waits for. A note is a list of characters, a
-- detail is what `stage_detail` kept of it, and the clock counts seconds. What the client does with
-- a frame, and the time after which `settle` stops waiting, are not modelled.
pub mod Quiet
use microtensor_subnet.Base.{
  ℕ, zero, suc, ◌+◌, ◌-◌, max, String, Bool, true, false, List, [], ◌∷◌, ◌++◌, Option, none, some,
  length, take, keep, contains, add_to_set, ltb, eqb, leb, not, ◌&&◌, ◌||◌, ◌==◌, if◌then◌else◌,
}
use microtensor_subnet.Base.Int.{ℤ, at_least_zero}
use microtensor_subnet.Base.Dict.{Dict, get, put, pop}

abbrev pub stages : List String
stages =
    "queued" ∷ "fetching" ∷ "checking" ∷ "slm" ∷ "harness" ∷ "escalation" ∷ "system" ∷ "replayed"
    ∷ "spot_checked" ∷ "scoring" ∷ "sent" ∷ "cleared" ∷ "refused" ∷ []

abbrev pub throttle_seconds : ℕ
throttle_seconds = 15

abbrev pub queue_limit : ℕ
queue_limit = 256

abbrev pub note_limit : ℕ
note_limit = 300

pub record Report : Type 0 where
  pub miner : String
  pub stage : String
  pub done : ℕ
  pub total : ℕ
  pub note : List ℕ
  pub detail : Option String

pub record Last : Type 0 where
  pub stage : String
  pub detail : Option String
  pub at : ℕ

-- What the thread sent: a report, or the result of a miner.
pub data Sent : Type 0 where
  progress : Report → Sent
  result : String → String → Sent

pub record Reporter : Type 0 where
  pub enabled : Bool
  pub pending : List Report
  pub results : Dict String
  pub sending : Dict String
  pub settled : List String
  pub last : Dict Last
  pub started : Bool
  pub closed : Bool
  pub sent : List Sent

abbrev pub new_reporter : Bool → Reporter
new_reporter enabled = record {
  enabled = enabled;
  pending = [];
  results = [];
  sending = [];
  settled = [];
  last = [];
  started = false;
  closed = false;
  sent = [];
}

abbrev pub all_but_first : List Report → List Report
all_but_first [] = []
all_but_first (r ∷ rest) = rest

-- append on a deque with a length limit: a full queue loses its first element
unfoldable pub append : Report → List Report → List Report
append r pending =
    if ltb (length pending) queue_limit then pending ++ r ∷ [] else all_but_first pending ++ r ∷ []

abbrev pub same_detail : Option String → Option String → Bool
same_detail none none = true
same_detail (some a) (some b) = a == b
same_detail none (some b) = false
same_detail (some a) none = false

-- whether the last report of the miner makes this one unneeded
abbrev pub is_throttled : Option Last → Report → ℕ → Bool
is_throttled none r now = false
is_throttled (some last) r now =
    last.stage == r.stage
    && same_detail last.detail r.detail
    && ltb r.done r.total
    && ltb (now - last.at) throttle_seconds

-- `Reporter._enqueue`
unfoldable pub enqueue : Report → ℕ → Reporter → Reporter
unfolding append
enqueue r now s = if s.closed || is_throttled (get r.miner s.last) r now then s else record s {
  last = put r.miner (record { stage = r.stage; detail = r.detail; at = now }) s.last;
  pending = append (record r { note = take note_limit r.note }) s.pending;
  started = true;
}

-- `Reporter.post`
unfoldable pub post : String → String → ℤ → ℤ → List ℕ → Option String → ℕ → Reporter → Reporter
unfolding enqueue
post miner stage done total note detail now s =
    if not s.enabled || not (contains stage stages)
    then s
    else enqueue
        (record {
          miner = miner;
          stage = stage;
          done = at_least_zero done;
          total = max (at_least_zero done) (at_least_zero total);
          note = note;
          detail = detail;
        })
        now s

-- `Reporter.publish`
unfoldable pub publish : String → String → Reporter → Reporter
publish miner body s =
    if not s.enabled || (s.closed || contains miner s.settled)
    then s
    else record s { results = put miner body s.results; started = true }

-- `Reporter.settle`, up to where it waits
unfoldable pub settle : String → Reporter → Reporter
settle miner s = record s { settled = add_to_set miner s.settled; results = pop miner s.results }

unfoldable pub close : Reporter → Reporter
close s = record s { closed = true }

-- One turn of `_drain` under the lock: a result is taken before a report. What was taken is sent
-- outside the lock; a report has no step of its own, as nothing waits for it.
abbrev pub pick_report : List Report → Reporter → Reporter
pick_report [] s = s
pick_report (r ∷ rest) s = record s { pending = rest; sent = s.sent ++ progress r ∷ [] }

abbrev pub pick_from : Dict String → Reporter → Reporter
pick_from [] s = pick_report s.pending s
pick_from ((miner, body) ∷ rest) s = record s {
  results = pop miner s.results;
  sending = put miner body s.sending;
}

unfoldable pub pick : Reporter → Reporter
pick s = pick_from s.results s

-- `_send_result`: the result of a miner is sent, and the miner discarded
unfoldable pub send_result : String → Reporter → Reporter
send_result miner s = elim (get miner s.sending) [
  | none ↦ s
  | some body ↦ record s { sending = pop miner s.sending; sent = s.sent ++ result miner body ∷ [] }
]

pub data Move : Type 0 where
  posts : String → String → ℤ → ℤ → List ℕ → Option String → ℕ → Move
  publishes : String → String → Move
  settles : String → Move
  closes : Move
  picks : Move
  sends : String → Move

unfoldable pub move : Move → Reporter → Reporter
unfolding post publish settle close pick send_result
move (posts miner stage done total note detail now) s =
    post miner stage done total note detail now s
move (publishes miner body) s = publish miner body s
move (settles miner) s = settle miner s
move closes s = close s
move picks s = pick s
move (sends miner) s = send_result miner s

unfoldable pub moves : List Move → Reporter → Reporter
unfolding move
moves [] s = s
moves (m ∷ rest) s = moves rest (move m s)
