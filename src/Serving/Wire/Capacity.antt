-- ===== src/Serving/Wire/Capacity.antt =====
-- serving/wire/session.py, `Inflight` and `Capacity`: how many requests run on which gpu. The clock
-- is a number of ticks.
pub mod Slots
pub mod Freest
use microtensor_subnet.Base.{
  ℕ, ◌+◌, ◌-◌, String, Bool, true, false, List, [], ◌∷◌, Option, none, some, Result, ok, raised,
  ◌>>=◌, ltb, eqb, not, ◌&&◌, ◌||◌, ◌==◌, keep, contains, sum_of, if◌then◌else◌, text_lt,
  add_to_set, map,
}
use microtensor_subnet.Base.Dict.{Dict, get, put, keys}
use microtensor_subnet.Serving.Wire.Offered.{SessionError, past_concurrency, no_such_gpu, Served}

pub record Inflight : Type 0 where
  pub limit : ℕ
  pub running : ℕ
  pub served : ℕ
  pub failed : ℕ
  pub started : ℕ

-- max(0, self.limit - self.running)
abbrev pub free_of : Inflight → ℕ
free_of held = held.limit - held.running

unfoldable pub idle_seconds : ℕ → Inflight → ℕ
idle_seconds now held = if eqb held.running 0 then now - held.started else 0

-- `Inflight.take`
unfoldable pub take_slot : Inflight → Result SessionError Inflight
take_slot held =
    if eqb (free_of held) 0
    then raised past_concurrency
    else ok (record held { running = held.running + 1 })

-- `Inflight.release`
unfoldable pub release_slot : Bool → ℕ → Inflight → Inflight
release_slot success now held =
    let running = held.running - 1 in
    record {
      limit = held.limit;
      running = running;
      served = if success then held.served + 1 else held.served;
      failed = if success then held.failed else held.failed + 1;
      started = if eqb running 0 then now else held.started;
    }

pub record Capacity : Type 0 where
  pub limits : Dict Inflight
  pub models : Dict String
  pub draining : List String

-- Inflight(limit=...)
abbrev pub new_slot : ℕ → ℕ → Inflight
new_slot now limit = record { limit = limit; running = 0; served = 0; failed = 0; started = now }

-- {s.gpu: Inflight(limit=s.concurrency) for s in serves}
unfoldable pub limits_of : ℕ → List Served → Dict Inflight → Dict Inflight
limits_of now [] found = found
limits_of now (s ∷ rest) found = limits_of now rest (put s.gpu (new_slot now s.concurrency) found)

-- {s.gpu: s.model for s in serves}
unfoldable pub models_of : List Served → Dict String → Dict String
models_of [] found = found
models_of (s ∷ rest) found = models_of rest (put s.gpu s.model found)

-- `Capacity.of`
unfoldable pub capacity_of : ℕ → List Served → Capacity
unfolding limits_of models_of
capacity_of now serves = record {
  limits = limits_of now serves [];
  models = models_of serves [];
  draining = [];
}

abbrev pub free_in : Option Inflight → ℕ
free_in none = 0
free_in (some held) = free_of held

abbrev pub running_in : Option Inflight → ℕ
running_in none = 0
running_in (some held) = held.running

-- `Capacity.free`
unfoldable pub free : String → Capacity → ℕ
free gpu c = free_in (get gpu c.limits)

-- `Capacity.in_flight`
unfoldable pub in_flight : String → Capacity → ℕ
in_flight gpu c = running_in (get gpu c.limits)

-- `Capacity.take`
unfoldable pub take : String → Capacity → Result SessionError Capacity
unfolding take_slot
take gpu c = elim (get gpu c.limits) [
  | none ↦ raised no_such_gpu
  | some held ↦ do taken ← take_slot held; ok (record c { limits = put gpu taken c.limits })
]

-- `Capacity.release`
unfoldable pub release : String → Bool → ℕ → Capacity → Capacity
unfolding release_slot
release gpu success now c = elim (get gpu c.limits) [
  | none ↦ c
  | some held ↦ record c { limits = put gpu (release_slot success now held) c.limits }
]

-- the gpus that hold the model and do not drain
unfoldable pub candidates : String → Capacity → Dict String → List String
candidates model c [] = []
candidates model c ((gpu, held) ∷ rest) =
    let others = candidates model c rest in
    if held == model && not (contains gpu c.draining) then gpu ∷ others else others

-- max(candidates, key=lambda gpu: (self.free(gpu), gpu)), from the best so far
unfoldable pub freest_from : Capacity → String → List String → String
unfolding free
freest_from c best [] = best
freest_from c best (gpu ∷ rest) =
    freest_from c
      (if ltb (free best c) (free gpu c) || eqb (free best c) (free gpu c) && text_lt best gpu
        then gpu
        else best)
      rest

abbrev pub freest_among : Capacity → List String → String
freest_among c [] = ""
freest_among c (gpu ∷ rest) = freest_from c gpu rest

-- `Capacity.freest`
unfoldable pub freest : String → Capacity → String
unfolding candidates freest_from
freest model c = freest_among c (candidates model c c.models)

-- `Capacity.running`
unfoldable pub running : Capacity → ℕ
running c = sum_of (λ e. e.1.running) c.limits

abbrev pub all_idle : Capacity → List String → Bool
all_idle c [] = true
all_idle c (gpu ∷ rest) = eqb (in_flight gpu c) 0 && all_idle c rest

-- `Capacity.drained`
unfoldable pub drained : String → Capacity → Bool
unfolding in_flight
drained gpu c = if gpu == "" then all_idle c c.draining else eqb (in_flight gpu c) 0

-- draining.update(gpus)
unfoldable pub drain_gpus : List String → List String → List String
drain_gpus [] draining = draining
drain_gpus (gpu ∷ rest) draining = drain_gpus rest (add_to_set gpu draining)
