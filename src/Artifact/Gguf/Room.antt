-- ===== src/Artifact/Gguf/Room.antt =====
-- artifact/gguf.py: what the small readers leave of a file.
use Prim.Native.Nat.{zero, suc, ◌+◌, ◌*◌}
use microtensor_subnet.Base.{
  ℕ, ◌≡◌, ◌≤◌, refl, inl, inr, Bool, true, false, [], ◌∷◌, Result, ok, raised, ◌>>=◌, leb, length,
  arith, if◌then◌else◌, Bool-cases,
}
use microtensor_subnet.Artifact.Gguf.Tables.{Format, width}
use microtensor_subnet.Artifact.Gguf.{
  GgufError, ends_early, not_gguf, old_version, unknown_type, too_large, out_of_fuel, offset_limit,
  Bytes, Value, items, read_exact, skip, little_endian, unpack, unpack_scalar, scalar_of, Shape,
  scalar, string, array, unknown, skip_each, skip_items,
}

abbrev pub ran_out : GgufError → Bool
ran_out out_of_fuel = true
ran_out ends_early = false
ran_out not_gguf = false
ran_out too_large = false
ran_out old_version = false
ran_out unknown_type = false

-- The reader did not run out of fuel, and leaves at most so many bytes.
abbrev pub Leaves {ℓ} : {A : Type ℓ} → ℕ → Result GgufError (A × Bytes) → Type 0
Leaves most (ok (a, rest)) = length rest ≤ most
Leaves most (raised e) = ran_out e ≡ false

pub >>=-Leaves {ℓ κ} :
    {A : Type ℓ} {B : Type κ} (most later : ℕ) (first : Result GgufError (A × Bytes))
    (next : A × Bytes → Result GgufError (B × Bytes))
    → Leaves most first
    → ((a : A) (rest : Bytes) → length rest ≤ most → Leaves later (next (a, rest)))
    → Leaves later (first >>= next)
>>=-Leaves most later (raised e) next h then_leaves = h
>>=-Leaves most later (ok (a, rest)) next h then_leaves = then_leaves a rest h

pub if-Leaves {ℓ} :
    {A : Type ℓ} (most : ℕ) (test : Bool) (e : GgufError) (r : Result GgufError (A × Bytes))
    → ran_out e ≡ false
    → Leaves most r
    → Leaves most (if test then raised e else r)
if-Leaves most true e r h k = h
if-Leaves most false e r h k = k

pub read_exact-Leaves :
    (n most : ℕ) (bytes : Bytes) → length bytes ≤ n + most → Leaves most (read_exact n bytes)
unfolding read_exact
read_exact-Leaves zero most bytes h = omega arith
read_exact-Leaves (suc n) most [] h = refl
read_exact-Leaves (suc n) most (x ∷ bytes) h =
    >>=-Leaves most most (read_exact n bytes) (λ (raw, rest). ok (x ∷ raw, rest))
      (read_exact-Leaves n most bytes (omega arith)) (λ raw rest k. k)

pub unpack-Leaves :
    (w most : ℕ) (bytes : Bytes) → length bytes ≤ w + most → Leaves most (unpack w bytes)
unfolding unpack
unpack-Leaves w most bytes h =
    >>=-Leaves most most (read_exact w bytes) (λ (raw, rest). ok (little_endian raw, rest))
      (read_exact-Leaves w most bytes h) (λ raw rest k. k)

pub unpack_scalar-Leaves :
    (format : Format) (bytes : Bytes) → Leaves (length bytes) (unpack_scalar format bytes)
unfolding unpack_scalar
unpack_scalar-Leaves format bytes =
    >>=-Leaves (length bytes) (length bytes) (read_exact (width format) bytes)
      (λ (raw, rest). ok (scalar_of format raw, rest))
      (read_exact-Leaves (width format) (length bytes) bytes (omega arith)) (λ raw rest k. k)

length-skip-le : (n : ℕ) (bytes : Bytes) → length (skip n bytes) ≤ length bytes
length-skip-le zero bytes = omega arith
length-skip-le (suc n) [] = omega arith
length-skip-le (suc n) (x ∷ bytes) = omega (arith, length-skip-le n bytes)

-- A reader that never runs out of fuel on at most so many bytes, nor adds any.
abbrev IsSafe : ℕ → (Bytes → Result GgufError (Value × Bytes)) → Type 0
IsSafe most next = (bytes : Bytes) → length bytes ≤ most → Leaves most (next bytes)

skip_each-Leaves :
    (most : ℕ) (next : Bytes → Result GgufError (Value × Bytes)) (value : Value) (n : ℕ)
    (bytes : Bytes)
    → IsSafe most next
    → length bytes ≤ most
    → Leaves most (skip_each next value n bytes)
skip_each-Leaves most next value zero bytes safe h = h
skip_each-Leaves most next value (suc n) bytes safe h =
    >>=-Leaves most most (next bytes) (λ (_, rest). skip_each next value n rest) (safe bytes h)
      (λ _ rest k. skip_each-Leaves most next value n rest safe k)

pub skip_items-Leaves :
    (most : ℕ) (next : Bytes → Result GgufError (Value × Bytes)) (shape : Shape) (n : ℕ)
    (bytes : Bytes)
    → IsSafe most next
    → length bytes ≤ most
    → Leaves most (skip_items next shape n bytes)
skip_items-Leaves most next (scalar format) n bytes safe h =
    elim (Bool-cases (leb offset_limit (width format * n))) [
      | inl e ↦ rw (e, if◌then◌else◌) refl
      | inr e ↦ rw (e, if◌then◌else◌) (omega (arith, length-skip-le (width format * n) bytes, h))
    ]
skip_items-Leaves most next string n bytes safe h =
    skip_each-Leaves most next (items n) n bytes safe h
skip_items-Leaves most next array n bytes safe h =
    skip_each-Leaves most next (items n) n bytes safe h
skip_items-Leaves most next unknown n bytes safe h =
    skip_each-Leaves most next (items n) n bytes safe h

-- A reader with more room leaves no more than that.
pub widened {ℓ} :
    {A : Type ℓ} (most later : ℕ) (r : Result GgufError (A × Bytes))
    → most ≤ later
    → Leaves most r
    → Leaves later r
widened most later (ok (a, rest)) h k = omega arith
widened most later (raised e) h k = k
