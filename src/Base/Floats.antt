-- ===== src/Base/Floats.antt =====
-- What the program uses of floating-point numbers, as an interface without laws.
use Prim.Native.Nat.{ℕ}
use mathlib.Core.Bool.{Bool}

-- The operators of `float`, by their names in Python: `lt` is `<`, `le` is `<=`, `eq` is `==`.
pub record Floats (F : Type 0) : Type 0 where
  pub of_ℕ : ℕ → F
  pub add : F → F → F
  pub sub : F → F → F
  pub mul : F → F → F
  pub div : F → F → F
  pub neg : F → F
  pub lt : F → F → Bool
  pub le : F → F → Bool
  pub eq : F → F → Bool
  -- int(x), of a number that is not negative
  pub floor : F → ℕ
  -- round(x), of a number that is not negative
  pub round : F → ℕ
  -- 1.5, the KEEP_MARGIN of serving/plan.py
  pub keep_margin : F
