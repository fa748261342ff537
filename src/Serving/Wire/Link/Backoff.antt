-- ===== src/Serving/Wire/Link/Backoff.antt =====
-- How long an operator waits before it dials again.
use microtensor_subnet.Base.{ℕ, zero, suc, ◌-◌, ◌≤◌, min, arith}
use microtensor_subnet.Serving.Wire.Link.{power_of_two, backoff}

power_of_two_mono : (a b : ℕ) → a ≤ b → power_of_two a ≤ power_of_two b
power_of_two_mono zero zero h = omega arith
power_of_two_mono zero (suc b) h = omega (arith, power_of_two_mono zero b (omega arith))
power_of_two_mono (suc a) zero h = absurd (omega arith)
power_of_two_mono (suc a) (suc b) h = omega (arith, power_of_two_mono a b (omega arith))

-- The wait never shrinks from one attempt to the next, and never passes the ceiling.
pub backoff_mono :
    (a b ceiling : ℕ)
    → a ≤ b
    → (backoff a ceiling ≤ backoff b ceiling) × (backoff b ceiling ≤ ceiling)
unfolding backoff
backoff_mono a b ceiling h =
    ground (arith, power_of_two_mono (min (a - 1) 16) (min (b - 1) 16) (omega arith))
