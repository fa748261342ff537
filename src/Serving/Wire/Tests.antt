-- ===== src/Serving/Wire/Tests.antt =====
-- A small session of an operator with two gpus.
use microtensor_subnet.Base.{
  ℕ, ◌≤◌, ◌≡◌, refl, String, false, List, [], ◌∷◌, none, some, ok, raised, All, Any, ◌⊎◌, Result,
  text_lt, text_le, add_to_set,
}
use microtensor_subnet.Base.Sorting.{sort}
use microtensor_subnet.Base.Dict.{get, get_or, put, pop, has}
use microtensor_subnet.Serving.Wire.Offered.{
  Served, Settings, checked_served, checked_settings, distinct_of, of_gpu, announced,
  too_little_concurrency, gpu_twice, bad_frame, bad_deadline, SessionError,
}
use microtensor_subnet.Serving.Wire.Capacity.{
  Capacity, take_slot, release_slot, limits_of, models_of, capacity_of, free, in_flight, take,
  release, candidates, freest_from, freest, drain_gpus,
}
use microtensor_subnet.Serving.Wire.Capacity.Slots.{limit_of}
use microtensor_subnet.Serving.Wire.Capacity.Freest.{IsOpenFor, freest-All}
use microtensor_subnet.Serving.Wire.Link.{learn, gpu_of, label_of, assigned, backoff}
use microtensor_subnet.Serving.Wire.Session.{
  State, Event, opening, finish_drains, handle_request, handle_welcome, handle_drain, end_task,
  step, run, routed, idle_gpus, drained_frames, still_waiting, without, without_at, nth_task,
  undecodable, welcome, request, drain, ends, answered,
}
use microtensor_subnet.Serving.Wire.Refusals.{
  Request, not_given, unreadable, is_past, refusal, at_concurrency,
}
use microtensor_subnet.Serving.Wire.Reports.{
  report, ready_frames, ready, heartbeat, refused, finished, drained,
}
use microtensor_subnet.Serving.Wire.Session.Counts.{count_at}
use microtensor_subnet.Serving.Wire.Session.Drains.{OnlyDrains, step-OnlyDrains}

abbrev served : String → ℕ → Served
served gpu concurrency = record {
  model = "mt/sql";
  artifact_digest = "d1";
  gpu = gpu;
  concurrency = concurrency;
  kind = "system";
}

abbrev settings : Settings
settings = record {
  gateway = "wss://gateway";
  hotkey = "5F";
  serves = served "g0" 1 ∷ served "g1" 2 ∷ [];
  gpus = [];
}

abbrev ask : String → Request
ask id = record { id = id; model = "mt/sql"; instance = ""; deadline = not_given; chat = false }

abbrev greeting : Event
greeting = welcome [] (some (record { label = "i0"; id = "g0"; status = "" }) ∷ none ∷ []) []

abbrev events : List Event
events =
    greeting
    ∷ request 5 (ask "a")
    ∷ request 5 (ask "b")
    ∷ request 5 (ask "c")
    ∷ request 5 (ask "d")
    ∷ drain "i0"
    ∷ ends 0 answered 9
    ∷ []

program : Unit {0}
unfolding checked_served checked_settings distinct_of of_gpu announced take_slot release_slot
    limits_of models_of capacity_of free in_flight take release candidates freest_from freest
    drain_gpus learn gpu_of label_of assigned backoff is_past refusal opening finish_drains
    handle_request handle_welcome handle_drain end_task step run routed report ready_frames
    idle_gpus drained_frames still_waiting without without_at nth_task get get_or put pop has sort
    text_le text_lt add_to_set limit_of count_at
program = tt

settings_checked : checked_settings settings ≡ ok settings
unfolding program
settings_checked = refl

settings_twice :
    checked_settings (record settings { serves = served "g0" 1 ∷ served "g0" 2 ∷ [] })
    ≡ raised gpu_twice
unfolding program
settings_twice = refl

served_idle : checked_served (served "g0" 0) ≡ raised too_little_concurrency
unfolding program
served_idle = refl

abbrev state_or : State → Result SessionError State → State
state_or default (ok s) = s
state_or default (raised e) = default

abbrev last : State
last = state_or (opening settings 0) (run settings false events (opening settings 0))

-- Three requests fill the places, the fourth is refused; the gpu that drains is reported once its
-- request has ended.
frames_of_events :
    last.sent
    ≡ ready "i0" (served "g0" 1)
      ∷ heartbeat (record { label = "i0"; phase = "ready"; requests = 0 } ∷ [])
      ∷ refused "d" at_concurrency
      ∷ finished "c"
      ∷ drained "i0"
      ∷ []
unfolding program
frames_of_events = refl

-- A session ends at a frame that is no frame, and at a deadline that is no number.
stops_at_frame :
    run settings false (greeting ∷ undecodable ∷ []) (opening settings 0) ≡ raised bad_frame
unfolding program
stops_at_frame = refl

stops_at_deadline :
    run settings false
      (greeting ∷ request 5 (record (ask "a") { deadline = unreadable }) ∷ [])
      (opening settings 0)
    ≡ raised bad_deadline
unfolding program
stops_at_deadline = refl

abbrev emptying : State
emptying = record last { capacity = record last.capacity { draining = "g1" ∷ [] } }

abbrev turned : State
turned =
    state_or emptying
      (step settings false (request 5 (record (ask "e") { instance = "g1" })) emptying)

step-OnlyDrains_example : OnlyDrains "g1" emptying turned
unfolding program
step-OnlyDrains_example =
    step-OnlyDrains settings false (request 5 (record (ask "e") { instance = "g1" })) emptying "g1"
      refl refl

abbrev open_all : Capacity
open_all = capacity_of 0 settings.serves

freest-All_example :
    All
      (λ e.
        IsOpenFor "mt/sql" open_all e
        → free e.0 open_all ≤ free (freest "mt/sql" open_all) open_all)
      open_all.models
    × (Any (λ e. (e.0 ≡ freest "mt/sql" open_all) × IsOpenFor "mt/sql" open_all e) open_all.models
        ⊎ ((freest "mt/sql" open_all ≡ "")
            × All (λ e. ¬ IsOpenFor "mt/sql" open_all e) open_all.models))
freest-All_example = freest-All "mt/sql" open_all

freest_first : freest "mt/sql" (capacity_of 0 settings.serves) ≡ "g1"
unfolding program
freest_first = refl

backoff_third : backoff 3 60 ≡ 4
unfolding program
backoff_third = refl
