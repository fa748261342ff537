-- ===== src/Base/Text.antt =====
-- Texts by their characters: what the program uses of Python's `str` and of regular expressions.
pub mod Split
pub mod Patterns
pub mod Builtins
pub mod Decimal
use Prim.Native.Nat.{ℕ, zero, suc, ◌≤◌}
use Prim.Native.Char.{Char, code}
use Prim.Native.String.{String, ◌++◌}
use Prim.Native.String
use mathlib.Core.Path.{◌≡◌, refl}
use mathlib.Core.Bool.{Bool, true, false, ◌&&◌, ◌||◌}
use mathlib.Core.List.{List, [], ◌∷◌}
use native.Mathlib.Omega.{arith}
use microtensor_subnet.Base.Tests.{leb, eqb, if◌then◌else◌}

abbrev pub is_blank : String → Bool
is_blank String.[] = true
is_blank (String.◌∷◌ c s) = false

abbrev pub between : ℕ → ℕ → ℕ → Bool
between low high n = leb low n && leb n high

-- str.isspace of one character
abbrev pub is_space : ℕ → Bool
is_space n =
    between 9 13 n
    || between 28 32 n
    || eqb n 133
    || eqb n 160
    || eqb n 5760
    || between 8192 8202 n
    || eqb n 8232
    || eqb n 8233
    || eqb n 8239
    || eqb n 8287
    || eqb n 12288

-- s.lstrip()
unfoldable pub lstrip : String → String
lstrip String.[] = String.[]
lstrip (String.◌∷◌ c s) = let rest = lstrip s in if is_space (code c) then rest else String.◌∷◌ c s

abbrev pub put_before : Char → String → String
put_before c s = if is_space (code c) && is_blank s then s else String.◌∷◌ c s

-- s.rstrip()
unfoldable pub rstrip : String → String
rstrip String.[] = String.[]
rstrip (String.◌∷◌ c s) = put_before c (rstrip s)

-- s.strip()
unfoldable pub strip : String → String
unfolding lstrip rstrip
strip s = rstrip (lstrip s)

-- s[:n]
unfoldable pub first_chars : ℕ → String → String
first_chars zero s = String.[]
first_chars (suc n) String.[] = String.[]
first_chars (suc n) (String.◌∷◌ c s) = String.◌∷◌ c (first_chars n s)

-- Every character has the property.
abbrev pub every : (ℕ → Bool) → String → Bool
every p String.[] = true
every p (String.◌∷◌ c s) = p (code c) && every p s

-- ASCII without capitals, which `s.lower()` leaves alone
abbrev pub is_plain : ℕ → Bool
is_plain n = leb n 64 || between 91 127 n

abbrev pub is_digit : ℕ → Bool
is_digit n = between 48 57 n
