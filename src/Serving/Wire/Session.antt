-- ===== src/Serving/Wire/Session.antt =====
-- serving/wire/session.py, `session` and what it calls: the frames that an operator answers. A
-- session is a state with the frames that were sent; an event is a frame that arrives or a task that
-- ends. The tasks of the event loop are the list `live`, in which an answer may come in any order.
-- Not modelled: the frames that carry parts of an answer, the tries to send `ready` again, the beat
-- by the clock, and `run`. An exception that a frame causes ends the session and is a
-- value `raised`; a lost connection, and an exception of the operator's own callbacks, is not modelled.
pub mod Guards
pub mod Counts
pub mod Drains
use microtensor_subnet.Base.{
  ℕ, zero, suc, ◌+◌, ◌-◌, String, Bool, true, false, List, [], ◌∷◌, ◌++◌, Option, none, some,
  Result, ok, raised, ltb, eqb, not, ◌&&◌, ◌||◌, ◌==◌, keep, contains, length, if◌then◌else◌,
  text_le, add_to_set,
}
use microtensor_subnet.Serving.Wire.Refusals.{Request, refusal}
use microtensor_subnet.Serving.Wire.Reports.{
  Frame, ready, heartbeat, refused, finished, failed, drain_all, drained, report, ready_frames,
}
use microtensor_subnet.Base.Sorting.{sort}
use microtensor_subnet.Base.Dict.{Dict, get, get_or, put, pop, has, keys}
use microtensor_subnet.Serving.Wire.Offered.{
  Served, Settings, of_gpu, announced, model_kind, SessionError, bad_frame,
}
use microtensor_subnet.Serving.Wire.Capacity.{
  Capacity, capacity_of, free, in_flight, take, release, freest, drain_gpus,
}
use microtensor_subnet.Serving.Wire.Link.{
  Link, new_link, Entry, learn, gpu_of, label_of, Assignment, Wanted, assigned,
}

-- A task: the request that it answers, and where.
pub record Task : Type 0 where
  pub id : String
  pub gpu : String

pub record State : Type 0 where
  pub capacity : Capacity
  pub link : Link
  pub beating : Bool
  pub running : List String
  pub live : List Task
  pub pending : List String
  pub assignments : List (List Assignment)
  pub sent : List Frame

unfoldable pub opening : Settings → ℕ → State
opening settings now = record {
  capacity = capacity_of now settings.serves;
  link = new_link;
  beating = false;
  running = [];
  live = [];
  pending = [];
  assignments = [];
  sent = [];
}

-- running.pop(id, None); the keys of the dict are all that is asked of it.
unfoldable pub without : String → List String → List String
without id xs = keep (λ x. not (x == id)) xs

-- The loop of `_finish_drains` over the gpus that wait for their last request.
unfoldable pub idle_gpus : Capacity → List String → List String
idle_gpus c [] = []
idle_gpus c (gpu ∷ rest) =
    let others = idle_gpus c rest in
    if not (gpu == "") && eqb (in_flight gpu c) 0 then gpu ∷ others else others

unfoldable pub drained_frames : List String → Link → List Frame
drained_frames [] link = []
drained_frames (gpu ∷ rest) link = drained (label_of gpu link) ∷ drained_frames rest link

unfoldable pub still_waiting : Capacity → ℕ → List String → List String
still_waiting c count [] = []
still_waiting c count (gpu ∷ rest) =
    let others = still_waiting c count rest in
    if gpu == ""
    then if eqb count 0 then others else gpu ∷ others
    else if eqb (in_flight gpu c) 0
    then others
    else gpu ∷ others

abbrev pub all_drained : ℕ → List String → List Frame
all_drained count pending = if contains "" pending && eqb count 0 then drained "" ∷ [] else []

-- `_finish_drains`
unfoldable pub finish_drains : State → State
unfolding idle_gpus drained_frames still_waiting
finish_drains s =
    let count = length s.running in
    record s {
      pending = still_waiting s.capacity count s.pending;
      sent =
          s.sent
          ++ drained_frames (sort text_le (idle_gpus s.capacity s.pending)) s.link
          ++ all_drained count s.pending;
    }

-- gpu = link.gpu(instance) if instance else state.freest(model)
unfoldable pub routed : State → Request → String
routed s request =
    if request.instance == ""
    then freest request.model s.capacity
    else gpu_of request.instance s.link

-- A request that was let in: a task is started and known by the id of the request.
abbrev pub start : State → String → String → Capacity → State
start s id gpu taken = record s {
  capacity = taken;
  live = record { id = id; gpu = gpu } ∷ s.live;
  running = add_to_set id s.running;
}

unfoldable pub handle_request : Settings → Bool → ℕ → Request → State → Result SessionError State
unfolding refusal routed
handle_request settings has_chat now request s =
    let gpu = routed s request in
    elim (refusal settings s.capacity request has_chat gpu now) [
      | raised e ↦ raised e
      | ok (some reason) ↦ ok (record s { sent = s.sent ++ refused request.id reason ∷ [] })
      | ok none ↦ elim (take gpu s.capacity) [
        | raised e ↦ raised e
        | ok taken ↦ ok (start s request.id gpu taken)
      ]
    ]

-- The first `welcome` starts the beat with a report.
unfoldable pub handle_welcome :
    Settings → Dict String → List (Option Entry) → List (Option Wanted) → State → State
unfolding report ready_frames
handle_welcome settings phases entries wanted s =
    let link = record (learn s.link entries) { welcomed = true } in
    let first =
      if s.beating
      then []
      else heartbeat (report (announced settings) phases s.capacity link) ∷ [] in
    record s {
      link = link;
      beating = true;
      assignments = s.assignments ++ assigned link wanted ∷ [];
      sent = s.sent ++ ready_frames settings.serves link ++ first;
    }

-- `drain` for one instance or, without one, for all
unfoldable pub handle_drain : String → State → State
unfolding finish_drains
handle_drain instance s =
    let c = s.capacity in
    finish_drains (
      if instance == ""
      then record s {
        capacity = record c { draining = drain_gpus (keys c.limits) c.draining };
        pending = add_to_set "" s.pending;
      }
      else record s {
        capacity = record c { draining = add_to_set (gpu_of instance s.link) c.draining };
        pending = add_to_set (gpu_of instance s.link) s.pending;
      })

pub data Outcome : Type 0 where
  answered errored cancelled : Outcome

abbrev pub is_answered : Outcome → Bool
is_answered answered = true
is_answered errored = false
is_answered cancelled = false

abbrev pub answer_of : String → Outcome → List Frame
answer_of id answered = finished id ∷ []
answer_of id errored = failed id ∷ []
answer_of id cancelled = []

unfoldable pub without_at : ℕ → List Task → List Task
without_at n [] = []
without_at zero (t ∷ ts) = ts
without_at (suc n) (t ∷ ts) = t ∷ without_at n ts

unfoldable pub nth_task : ℕ → List Task → Option Task
nth_task n [] = none
nth_task zero (t ∷ ts) = some t
nth_task (suc n) (t ∷ ts) = nth_task n ts

-- A task ends: `serve_one` or `serve_chat` releases its place and answers, and the callbacks of the
-- task drop its id and finish what drains.
unfoldable pub end_task : ℕ → Outcome → ℕ → State → State
unfolding finish_drains without without_at nth_task
end_task n outcome now s = elim (nth_task n s.live) [
  | none ↦ s
  | some t ↦ finish_drains (record s {
    capacity = release t.gpu (is_answered outcome) now s.capacity;
    live = without_at n s.live;
    running = without t.id s.running;
    sent = s.sent ++ answer_of t.id outcome;
  })
]

pub data Event : Type 0 where
  -- a frame of which `protocol.decode` raises
  undecodable : Event
  -- the frames that arrive
  welcome : Dict String → List (Option Entry) → List (Option Wanted) → Event
  accepted : String → String → Event
  assign : List (Option Wanted) → Event
  request : ℕ → Request → Event
  cancel : String → Event
  beat : Dict String → Event
  drain : String → Event
  -- a task ends
  ends : ℕ → Outcome → ℕ → Event
  -- the operator stops: the first lines of `_drain_out`
  stop : Event

-- One event of a session with or without a handler for chat. A task that is cancelled ends by an
-- event of its own.
unfoldable pub step : Settings → Bool → Event → State → Result SessionError State
unfolding handle_request handle_welcome handle_drain end_task
step settings has_chat undecodable s = raised bad_frame
step settings has_chat (welcome phases entries wanted) s =
    ok (handle_welcome settings phases entries wanted s)
step settings has_chat (accepted label status) s =
    let link = s.link in
    ok (record s { link = record link { statuses = put label status link.statuses } })
step settings has_chat (assign wanted) s =
    ok (record s { assignments = s.assignments ++ assigned s.link wanted ∷ [] })
step settings has_chat (request now r) s = handle_request settings has_chat now r s
step settings has_chat (cancel id) s = ok (record s { running = without id s.running })
step settings has_chat (beat phases) s = ok (record s {
  sent = s.sent ++ heartbeat (report (announced settings) phases s.capacity s.link) ∷ [];
})
step settings has_chat (drain instance) s = ok (handle_drain instance s)
step settings has_chat (ends n outcome now) s = ok (end_task n outcome now s)
step settings has_chat stop s =
    let c = s.capacity in
    ok (record s {
      capacity = record c { draining = drain_gpus (keys c.limits) c.draining };
      sent = s.sent ++ drain_all ∷ [];
    })

unfoldable pub run : Settings → Bool → List Event → State → Result SessionError State
unfolding step
run settings has_chat [] s = ok s
run settings has_chat (e ∷ rest) s = elim (step settings has_chat e s) [
  | raised x ↦ raised x
  | ok t ↦ run settings has_chat rest t
]
