-- ===== src/Serving/Wire/Capacity/Slots.antt =====
-- What taking and releasing a place changes for each gpu.
use microtensor_subnet.Base.{
  ℕ, ◌+◌, ◌-◌, ◌<◌, ◌≡◌, refl, String, Bool, List, [], ◌∷◌, Option, none, some, ok, inl, inr,
  eq_iff, ◌==◌, if◌then◌else◌, arith, Option-cases,
}
use microtensor_subnet.Base.Dict.{Dict, get, put, get-put}
use microtensor_subnet.Serving.Wire.Offered.{Served}
use microtensor_subnet.Serving.Wire.Capacity.{
  Inflight, Capacity, take_slot, release_slot, limits_of, capacity_of, running_in, free, in_flight,
  take, release, new_slot,
}

abbrev pub limit_in : Option Inflight → ℕ
limit_in none = 0
limit_in (some held) = held.limit

-- The declared concurrency of a gpu, 0 for a gpu that is not held.
unfoldable pub limit_of : String → Capacity → ℕ
limit_of gpu c = limit_in (get gpu c.limits)

-- A place that was taken: one more request runs on the gpu, which had room for it.
pub take-counts :
    (gpu g : String) (c : Capacity) {t : Capacity}
    → take gpu c ≡ ok t
    → (in_flight g t ≡ in_flight g c + (if gpu == g then 1 else 0))
      × (limit_of g t ≡ limit_of g c)
      × (in_flight gpu c < limit_of gpu c)
      × (t.draining ≡ c.draining)
unfolding take take_slot in_flight limit_of
take-counts gpu g c h = elim (Option-cases (get gpu c.limits)) [
  | inl e ↦ ground (arith, e)
  | inr (held, e) ↦
      ground (
        arith,
        e,
        eq_iff gpu g,
        get-put gpu g (record held { running = held.running + 1 }) c.limits,
      )
]

-- A place that was given back.
pub release-counts :
    (gpu g : String) (success : Bool) (now : ℕ) (c : Capacity)
    → (in_flight g (release gpu success now c) ≡ in_flight g c - (if gpu == g then 1 else 0))
      × (limit_of g (release gpu success now c) ≡ limit_of g c)
      × ((release gpu success now c).draining ≡ c.draining)
unfolding release release_slot in_flight limit_of
release-counts gpu g success now c = elim (Option-cases (get gpu c.limits)) [
  | inl e ↦ ground (arith, e, eq_iff gpu g)
  | inr (held, e) ↦
      ground (arith, e, eq_iff gpu g, get-put gpu g (release_slot success now held) c.limits)
]

-- There is a free place exactly if taking one succeeds.
pub take-free :
    (gpu : String) (c : Capacity) → 0 < free gpu c → (t : Capacity) × (take gpu c ≡ ok t)
unfolding take take_slot free
take-free gpu c h = elim (Option-cases (get gpu c.limits)) [
  | inl e ↦ absurd (ground (arith, e))
  | inr (held, e) ↦ (
    record c { limits = put gpu (record held { running = held.running + 1 }) c.limits },
    ground (arith, e),
  )
]

limits_of-idle :
    (now : ℕ) (serves : List Served) (found : Dict Inflight) (g : String)
    → running_in (get g found) ≡ 0
    → running_in (get g (limits_of now serves found)) ≡ 0
unfolding limits_of
limits_of-idle now [] found g h = h
limits_of-idle now (s ∷ rest) found g h =
    limits_of-idle now rest (put s.gpu (new_slot now s.concurrency) found) g
      (ground (arith, get-put s.gpu g (new_slot now s.concurrency) found))

-- Nothing runs at first.
pub in_flight-capacity_of :
    (now : ℕ) (serves : List Served) (g : String) → in_flight g (capacity_of now serves) ≡ 0
unfolding in_flight capacity_of get
in_flight-capacity_of now serves g = limits_of-idle now serves [] g refl
