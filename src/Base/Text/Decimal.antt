-- ===== src/Base/Text/Decimal.antt =====
-- Builtins for texts in ASCII: numbers in decimal, and no capitals to lower.
use Prim.Native.Nat.{ℕ, zero, suc, ◌+◌, ◌*◌, ◌-◌, ◌/◌, ◌%◌, ◌≤◌, ◌<◌}
use Prim.Native.Char.{Char, code}
use Prim.Native.String.{String, ◌++◌}
use text.Mathlib.TextLemmas.{nil-append, cons-append}
use mathlib.Core.Path.{◌≡◌, refl}
use mathlib.Core.Bool.{Bool, true, false, ◌&&◌}
use mathlib.Core.Option.{Option, none, some}
use native.Mathlib.Omega.{arith}
use microtensor_subnet.Base.Tests.{eqb, ltb, if◌then◌else◌}
use microtensor_subnet.Base.Int.{ℤ, pos, negsuc}
use microtensor_subnet.Base.Text.{every, is_blank, is_digit}
use microtensor_subnet.Base.Text.Builtins.{Builtins}

digit : ℕ → Char
digit zero = "0"
digit (suc zero) = "1"
digit (suc (suc zero)) = "2"
digit (suc (suc (suc zero))) = "3"
digit (suc (suc (suc (suc zero)))) = "4"
digit (suc (suc (suc (suc (suc zero))))) = "5"
digit (suc (suc (suc (suc (suc (suc zero)))))) = "6"
digit (suc (suc (suc (suc (suc (suc (suc zero))))))) = "7"
digit (suc (suc (suc (suc (suc (suc (suc (suc zero)))))))) = "8"
digit (suc (suc (suc (suc (suc (suc (suc (suc (suc n))))))))) = "9"

code-digit : (n : ℕ) → n < 10 → code (digit n) ≡ 48 + n
unfolding digit
code-digit zero h = refl
code-digit (suc zero) h = refl
code-digit (suc (suc zero)) h = refl
code-digit (suc (suc (suc zero))) h = refl
code-digit (suc (suc (suc (suc zero)))) h = refl
code-digit (suc (suc (suc (suc (suc zero))))) h = refl
code-digit (suc (suc (suc (suc (suc (suc zero)))))) h = refl
code-digit (suc (suc (suc (suc (suc (suc (suc zero))))))) h = refl
code-digit (suc (suc (suc (suc (suc (suc (suc (suc zero)))))))) h = refl
code-digit (suc (suc (suc (suc (suc (suc (suc (suc (suc zero))))))))) h = refl
code-digit (suc (suc (suc (suc (suc (suc (suc (suc (suc (suc n)))))))))) h = absurd (omega arith)

abbrev one_char : Char → String
one_char c = String.◌∷◌ c String.[]

-- The digits of n, on fuel of n rounds.
shown : ℕ → ℕ → String
shown zero n = one_char (digit (n % 10))
shown (suc fuel) n =
    let more = shown fuel (n / 10) in
    if ltb n 10 then one_char (digit n) else more ++ one_char (digit (n % 10))

abbrev value : ℕ → String → ℕ
value acc String.[] = acc
value acc (String.◌∷◌ c s) = value (acc * 10 + (code c - 48)) s

value-append : (acc : ℕ) (s t : String) → value acc (s ++ t) ≡ value (value acc s) t
value-append acc String.[] t = rw nil-append refl
value-append acc (String.◌∷◌ c s) t = rw cons-append (value-append (acc * 10 + (code c - 48)) s t)

every-append :
    (p : ℕ → Bool) (s t : String) → every p s ≡ true → every p t ≡ true → every p (s ++ t) ≡ true
every-append p String.[] t h k = rw nil-append k
every-append p (String.◌∷◌ c s) t h k = rw cons-append (ground (arith, every-append p s t))

is_blank-append : (s t : String) → is_blank s ≡ false → is_blank (s ++ t) ≡ false
is_blank-append String.[] t h = absurd (cc)
is_blank-append (String.◌∷◌ c s) t h = rw cons-append refl

value-shown : (fuel n : ℕ) → n ≤ fuel → value 0 (shown fuel n) ≡ n
unfolding shown
value-shown zero n h = ground (arith, code-digit (n % 10) (omega arith))
value-shown (suc fuel) n h = ground (
  arith,
  value-append 0 (shown fuel (n / 10)) (one_char (digit (n % 10))),
  value-shown fuel (n / 10) (omega arith),
  code-digit (n % 10) (omega arith),
  code-digit n,
)

shown_digits : (fuel n : ℕ) → every is_digit (shown fuel n) ≡ true
unfolding shown
shown_digits zero n = ground (arith, code-digit (n % 10) (omega arith))
shown_digits (suc fuel) n = ground (
  arith,
  every-append is_digit (shown fuel (n / 10)) (one_char (digit (n % 10))),
  shown_digits fuel (n / 10),
  code-digit (n % 10) (omega arith),
  code-digit n,
)

shown_filled : (fuel n : ℕ) → is_blank (shown fuel n) ≡ false
unfolding shown
shown_filled zero n = refl
shown_filled (suc fuel) n = ground (
  arith,
  is_blank-append (shown fuel (n / 10)) (one_char (digit (n % 10))),
  shown_filled fuel (n / 10),
)

unfoldable pub show : ℤ → String
unfolding shown digit
show (pos n) = shown n n
show (negsuc n) = "-" ++ shown (suc n) (suc n)

unfoldable pub read : String → Option ℤ
read s =
    if every is_digit s && eqb (if is_blank s then 0 else 1) 1 then some (pos (value 0 s)) else none

pub read-show : (n : ℕ) → read (show (pos n)) ≡ some (pos n)
unfolding read show
read-show n = ground (arith, value-shown n n (omega arith), shown_digits n n, shown_filled n n)

pub show_digits : (n : ℕ) → every is_digit (show (pos n)) ≡ true
unfolding show
show_digits n = shown_digits n n

pub show_filled : (n : ℕ) → is_blank (show (pos n)) ≡ false
unfolding show
show_filled n = shown_filled n n

-- Builtins that read and print in decimal, on texts without capitals.
abbrev pub ascii : Builtins
ascii = record {
  lower = λ s. s;
  show_int = show;
  read_int = read;
  lower_plain = λ s h. refl;
  read_int-show_int = read-show;
  show_int_digits = show_digits;
  show_int_filled = show_filled;
}
