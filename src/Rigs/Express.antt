-- ===== src/Rigs/Express.antt =====
-- rigs/validator/schedule/express.py: `ExpressLane`, by the probes that end, in the order in which they
-- end. How many run at once (`Limiter`) and what a rig answers over the network is not modelled. `F` is the type
-- of floating-point numbers, in which the clock counts.
pub mod Streaks
use microtensor_subnet.Base.{
  ℕ, ◌+◌, String, Bool, true, false, not, List, [], ◌∷◌, ◌++◌, Option, none, some, ltb, leb, eqb,
  ◌&&◌, ◌||◌, ◌==◌, map, keep, take, length, add_to_set, if◌then◌else◌,
}
use microtensor_subnet.Base.Dict.{Dict, get_or, put, pop}
use microtensor_subnet.Base.Floats.{Floats}
use microtensor_subnet.Rigs.Ledger.{Ledger, observe}

-- What is read of a rig of the roster, with the number of its jobs.
pub record Rig : Type 0 where
  pub id : String
  pub hotkey : String
  pub jobs_running : ℕ

-- A card, whose percentage is zero if it cannot be read.
pub record Card : Type 0 where
  pub uuid : String
  pub percent : ℕ
  pub has_processes : Bool

-- the kind of a signal, with what its text tells
pub data Kind : Type 0 where
  unreachable : ℕ → Kind
  idle_while_placed : ℕ → Kind
  busy_without_assignment : List String → Kind

pub record Signal (F : Type 0) : Type 0 where
  pub rig_id : String
  pub hotkey : String
  pub kind : Kind
  pub moment : F

-- UNREACHABLE_TICKS, BUSY_PERCENT and SIGNAL_HISTORY
abbrev pub unreachable_ticks : ℕ
unreachable_ticks = 3

abbrev pub busy_percent : ℕ
busy_percent = 50

abbrev pub signal_history : ℕ
signal_history = 500

-- `owner_of`
unfoldable pub owner_of : Rig → String
owner_of rig = if rig.hotkey == "" then rig.id else rig.hotkey

abbrev uuid_of : Card → String
uuid_of card = if card.uuid == "" then "?" else card.uuid

abbrev filled : List String → Bool
filled [] = false
filled (x ∷ xs) = true

-- the answer for the busy cards
abbrev signal_for : ℕ → List String → Option Kind
signal_for placed busy =
    if ltb 0 placed && not (filled busy)
    then some (idle_while_placed placed)
    else (if eqb placed 0 && filled busy
        then some (busy_without_assignment (take 4 busy))
        else none)

-- `utilisation_signal`
unfoldable pub utilisation_signal : Rig → List Card → Option Kind
utilisation_signal rig [] = none
utilisation_signal rig (card ∷ cards) =
    signal_for rig.jobs_running
      (map uuid_of (keep (λ c. leb busy_percent c.percent || c.has_processes) (card ∷ cards)))

pub record Lane (F : Type 0) : Type 0 where
  pub ledger : Ledger F
  pub unreachable_by : Dict ℕ
  pub early_due : List String
  pub signals : List (Signal F)
  pub last_probe : Dict Bool

-- A probe that ended.
pub data Probe (F : Type 0) : Type 0 where
  fails : Rig → F → Probe F
  answers : Rig → List Card → F → Probe F

module _ {F : Type 0} where
  -- `ExpressLane.__init__`
  abbrev pub new_lane : Ledger F → Lane F
  new_lane ledger = record {
    ledger = ledger;
    unreachable_by = [];
    early_due = [];
    signals = [];
    last_probe = [];
  }

  -- signals.append(signal), on a deque that drops the oldest where it is full
  unfoldable pub append_signal : Signal F → List (Signal F) → List (Signal F)
  append_signal signal [] = signal ∷ []
  append_signal signal (oldest ∷ signals) =
      if leb signal_history (length (oldest ∷ signals))
      then signals ++ signal ∷ []
      else oldest ∷ (signals ++ signal ∷ [])

  -- `record`
  unfoldable pub record_signal : Rig → Kind → F → Lane F → Lane F
  unfolding owner_of append_signal
  record_signal rig kind moment lane = record lane {
    signals =
        append_signal
          (record { rig_id = rig.id; hotkey = owner_of rig; kind = kind; moment = moment })
          lane.signals;
  }

  -- `if count == UNREACHABLE_TICKS`
  unfoldable pub due_at : ℕ → Rig → F → Lane F → Lane F
  unfolding record_signal add_to_set
  due_at count rig moment lane =
      if eqb count unreachable_ticks
      then record_signal rig (unreachable count) moment
          (record lane { early_due = add_to_set rig.id lane.early_due })
      else lane

  abbrev pub probed : Rig → Bool → Lane F → Lane F
  probed rig online lane = record lane { last_probe = put rig.id online lane.last_probe }

  abbrev signalled : Rig → Option Kind → F → Lane F → Lane F
  signalled rig none moment lane = lane
  signalled rig (some kind) moment lane = record_signal rig kind moment lane

  -- `take_early_due`
  unfoldable pub take_early_due : Lane F → List String × Lane F
  take_early_due lane = (lane.early_due, record lane { early_due = [] })

module _ {F : Type 0} (f : Floats F) where
  -- `probe`, where the agent does not answer
  unfoldable pub probe_fails : Rig → F → Lane F → Lane F
  unfolding due_at observe get_or put
  probe_fails rig moment lane =
      let count : ℕ = get_or rig.id 0 lane.unreachable_by + 1 in
      probed rig false (
        due_at count rig moment (record lane {
          ledger = observe f rig.id false moment lane.ledger;
          unreachable_by = put rig.id count lane.unreachable_by;
        }))

  -- `probe`, where it does
  unfoldable pub probe_answers : Rig → List Card → F → Lane F → Lane F
  unfolding record_signal utilisation_signal observe put pop
  probe_answers rig cards moment lane = probed rig true (
      signalled rig (utilisation_signal rig cards) moment (record lane {
        ledger = observe f rig.id true moment lane.ledger;
        unreachable_by = pop rig.id lane.unreachable_by;
      }))

  unfoldable pub probe : Probe F → Lane F → Lane F
  probe (fails rig moment) lane = probe_fails rig moment lane
  probe (answers rig cards moment) lane = probe_answers rig cards moment lane

  unfoldable pub probes : List (Probe F) → Lane F → Lane F
  probes [] lane = lane
  probes (p ∷ ps) lane = probes ps (probe p lane)
