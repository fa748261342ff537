-- ===== src/Chain/Clock.antt =====
-- Errors and integer division that epochs and rounds share.
use native.Mathlib.Nat.{div-mul-le_self, lt-div-mul-add, div-eq_of_lt-le}
use microtensor_subnet.Base.{
  ℕ, zero, suc, ◌+◌, ◌-◌, ◌*◌, ◌/◌, ◌≤◌, ◌<◌, ◌≡◌, refl, Result, ok, raised, eqb, if◌then◌else◌,
  arith, sym, ◌∙◌,
}
use microtensor_subnet.Base.Int.{ℤ, pos, negsuc, ◌*ℤ◌}

pub data ClockError : Type 0 where
  negative_index short bad_commit_window bad_settle_margin bad_close_margin bad_deadline_margin
        before_first before_genesis zero_division bad_cycle :
      ClockError

-- n // d for a number of blocks n, rounded down also for a negative d.
unfoldable pub floor_div : ℕ → ℤ → Result ClockError ℤ
floor_div n (pos zero) = raised zero_division
floor_div n (pos (suc d)) = ok (pos (n / suc d))
floor_div n (negsuc k) = ok (if eqb n 0 then pos 0 else negsuc ((n + k) / suc k - 1))

pub pos-*ℤ-pos : (a b : ℕ) → pos a *ℤ pos b ≡ pos (a * b)
unfolding ◌*ℤ◌
pos-*ℤ-pos a b = ground arith

-- A count of blocks lies in the period that its quotient names.
pub div_bounds : (n l : ℕ) → 0 < l → (n / l * l ≤ n) × (n < n / l * l + l)
div_bounds n l h = (div-mul-le_self n l, lt-div-mul-add h)

pub periods_disjoint : (n l i j : ℕ) → i * l ≤ n → n < i * l + l → j * l ≤ n → n < j * l + l → i ≡ j
periods_disjoint n l i j a b c d =
    sym (div-eq_of_lt-le {k = i} l {m = n} (omega arith) (omega arith))
    ∙ div-eq_of_lt-le {k = j} l {m = n} (omega arith) (omega arith)

pub floor_div-pos : (n l : ℕ) → 0 < l → floor_div n (pos l) ≡ ok (pos (n / l))
unfolding floor_div
floor_div-pos n zero h = absurd (omega arith)
floor_div-pos n (suc l) h = refl
