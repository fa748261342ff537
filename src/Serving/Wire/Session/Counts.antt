-- ===== src/Serving/Wire/Session/Counts.antt =====
-- What runs on each gpu during a session.
use microtensor_subnet.Base.{
  ℕ, zero, suc, ◌+◌, ◌≤◌, ◌≡◌, String, List, [], ◌∷◌, some, eq_iff, ◌==◌, if◌then◌else◌, arith,
}
use microtensor_subnet.Serving.Wire.Capacity.{Capacity, in_flight}
use microtensor_subnet.Serving.Wire.Capacity.Slots.{limit_of}
use microtensor_subnet.Serving.Wire.Session.{
  State, Task, Event, nth_task, without_at, start, undecodable, welcome, accepted, assign, request,
  cancel, beat, drain, ends, stop,
}
use microtensor_subnet.Serving.Wire.Session.Guards.{CanRead}

-- The number of live tasks on a gpu.
unfoldable pub count_at : String → List Task → ℕ
count_at g [] = 0
count_at g (t ∷ ts) = (if t.gpu == g then 1 else 0) + count_at g ts

-- The counters of a session agree with its live tasks, and stay within the limits of the start.
pub record IsTracked (start : Capacity) (s : State) (g : String) : Type 0 where
  pub tracked : in_flight g s.capacity ≡ count_at g s.live
  pub within : in_flight g s.capacity ≤ limit_of g s.capacity
  pub fixed : limit_of g s.capacity ≡ limit_of g start

pub count_at-without_at :
    (g : String) (n : ℕ) (ts : List Task) (t : Task)
    → nth_task n ts ≡ some t
    → count_at g ts ≡ count_at g (without_at n ts) + (if t.gpu == g then 1 else 0)
unfolding count_at nth_task without_at
count_at-without_at g n [] t h = absurd (cc)
count_at-without_at g zero (u ∷ ts) t h = ground (arith, eq_iff u.gpu g, eq_iff t.gpu g)
count_at-without_at g (suc n) (u ∷ ts) t h = omega (arith, count_at-without_at g n ts t h)

-- The frame can be decoded, and if it is a request, its deadline can be read.
abbrev pub IsReadable : Event → Type 0
IsReadable undecodable = ⊥
IsReadable (request now r) = CanRead r.deadline
IsReadable (welcome phases entries wanted) = Unit
IsReadable (accepted label status) = Unit
IsReadable (assign wanted) = Unit
IsReadable (cancel id) = Unit
IsReadable (beat phases) = Unit
IsReadable (drain instance) = Unit
IsReadable (ends n outcome now) = Unit
IsReadable stop = Unit
