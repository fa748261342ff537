-- ===== src/Base/Fractions.antt =====
-- `fractions.Fraction`, not negative: a numerator over a denominator, not reduced. `int` and the
-- comparisons give the same answer for every representation of a number.
use Prim.Native.Nat.{ℕ, ◌+◌, ◌-◌, ◌*◌, ◌/◌, ◌≤◌, ◌<◌}
use mathlib.Core.Bool.{Bool}
use native.Mathlib.Nat.{div-le_of_le-mul, mul-le-mul_left}
use native.Mathlib.Omega.{arith}
use microtensor_subnet.Base.Tests.{ltb, leb}
use microtensor_subnet.Base.Int.{ℤ}

pub record Fraction : Type 0 where
  pub num : ℕ
  pub den : ℕ

-- Python refuses a denominator of zero.
abbrev pub IsFraction : Fraction → Type 0
IsFraction f = 0 < f.den

abbrev pub whole : ℕ → Fraction
whole n = record { num = n; den = 1 }

abbrev pub ratio : ℕ → ℕ → Fraction
ratio a b = record { num = a; den = b }

abbrev pub add_fraction : Fraction → Fraction → Fraction
add_fraction a b = record { num = a.num * b.den + b.num * a.den; den = a.den * b.den }

-- a - b for b ≤ a
abbrev pub sub_fraction : Fraction → Fraction → Fraction
sub_fraction a b = record { num = a.num * b.den - b.num * a.den; den = a.den * b.den }

abbrev pub mul_fraction : Fraction → Fraction → Fraction
mul_fraction a b = record { num = a.num * b.num; den = a.den * b.den }

-- int(f)
abbrev pub floor : Fraction → ℕ
floor f = f.num / f.den

abbrev pub lt_fraction : Fraction → Fraction → Bool
lt_fraction a b = ltb (a.num * b.den) (b.num * a.den)

abbrev pub le_fraction : Fraction → Fraction → Bool
le_fraction a b = leb (a.num * b.den) (b.num * a.den)

-- A fraction with its sign, before a check has refused the negative ones.
pub record Signed : Type 0 where
  pub num : ℤ
  pub den : ℕ

-- int(Fraction(n) * f)
unfoldable pub part_of : ℕ → Fraction → ℕ
part_of n f = floor (mul_fraction (whole n) f)

-- A fraction of at most one takes at most the whole.
pub part_of-le : (n : ℕ) (f : Fraction) → f.num ≤ f.den → part_of n f ≤ n
unfolding part_of
part_of-le n f h = div-le_of_le-mul (1 * f.den) (omega (arith, mul-le-mul_left n h))
