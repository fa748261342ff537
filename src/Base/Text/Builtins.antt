-- ===== src/Base/Text/Builtins.antt =====
-- The builtins of Python whose tables of characters are not modelled: `s.lower()`, `str(n)` and
-- `int(s)`, with what is documented of them.
use Prim.Native.Nat.{ℕ}
use Prim.Native.String.{String}
use mathlib.Core.Path.{◌≡◌}
use mathlib.Core.Bool.{true, false}
use mathlib.Core.Option.{Option, some}
use microtensor_subnet.Base.Int.{ℤ, pos}
use microtensor_subnet.Base.Text.{every, is_plain, is_digit, is_blank}

pub record Builtins : Type 0 where
  pub lower : String → String
  pub show_int : ℤ → String
  -- `none` is a ValueError
  pub read_int : String → Option ℤ
  -- only cased characters are changed
  pub lower_plain : (s : String) → every is_plain s ≡ true → lower s ≡ s
  pub read_int-show_int : (n : ℕ) → read_int (show_int (pos n)) ≡ some (pos n)
  -- a number that is not negative is printed in digits, at least one
  pub show_int_digits : (n : ℕ) → every is_digit (show_int (pos n)) ≡ true
  pub show_int_filled : (n : ℕ) → is_blank (show_int (pos n)) ≡ false
