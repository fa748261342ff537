-- ===== src/Artifact/Gguf.antt =====
-- artifact/gguf.py: `read`, the reader of the header of a model file. A handle is the list of the bytes
-- that are left. The recursion of `_value` runs on fuel, one unit for each level of nested arrays.
pub mod Tables
pub mod Counts
pub mod Room
pub mod Ends
pub mod Tests
use Prim.Native.Nat.{zero, suc, ◌+◌, ◌*◌, ◌-◌}
use microtensor_subnet.Base.{
  ℕ, String, Bool, true, false, not, List, [], ◌∷◌, ◌++◌, Option, none, some, Result, ok, raised,
  ◌>>=◌, ltb, leb, eqb, ◌&&◌, if◌then◌else◌, length,
}
use microtensor_subnet.Base.Int.{ℤ, pos, sub_ℕ}
use microtensor_subnet.Base.Dict.{Dict, put}
use microtensor_subnet.Artifact.Gguf.Tables.{
  lookup, Format, unsigned, signed, floating, truth, width, scalars, type_name,
}

-- GgufError, by its messages, and what else a read raises:
-- `too_large` is the OverflowError or ValueError of a handle at a size that is no file offset, and
-- `out_of_fuel` is of the model only.
pub data GgufError : Type 0 where
  ends_early not_gguf old_version unknown_type too_large out_of_fuel : GgufError

-- Sizes from here on are refused by `handle.read` and `handle.seek`.
abbrev pub offset_limit : ℕ
offset_limit = 9223372036854775808

abbrev pub Bytes : Type 0
Bytes = List ℕ

-- The values of metadata: integers, the bytes of a float, truth values, texts, and for an array the
-- number of its items.
pub data Value : Type 0 where
  whole : ℤ → Value
  real : Bytes → Value
  flag : Bool → Value
  text : String → Value
  items : ℕ → Value

pub record Tensor : Type 0 where
  pub name : String
  pub shape : List ℕ
  pub kind : String

pub record Gguf : Type 0 where
  pub version : ℕ
  pub metadata : Dict Value
  pub tensors : List Tensor

abbrev pub magic : Bytes
magic = 71 ∷ 71 ∷ 85 ∷ 70 ∷ []

abbrev pub same_bytes : Bytes → Bytes → Bool
same_bytes [] [] = true
same_bytes [] (y ∷ ys) = false
same_bytes (x ∷ xs) [] = false
same_bytes (x ∷ xs) (y ∷ ys) = eqb x y && same_bytes xs ys

-- handle.read(n), where fewer than n bytes are an error
unfoldable pub read_exact : ℕ → Bytes → Result GgufError (Bytes × Bytes)
read_exact zero bytes = ok ([], bytes)
read_exact (suc n) [] = raised ends_early
read_exact (suc n) (x ∷ bytes) = read_exact n bytes >>= λ (raw, rest). ok (x ∷ raw, rest)

-- handle.seek(n, 1), which may go past the end
abbrev pub skip : ℕ → Bytes → Bytes
skip zero bytes = bytes
skip (suc n) [] = []
skip (suc n) (x ∷ bytes) = skip n bytes

-- The number whose bytes are given, the least first.
abbrev pub little_endian : Bytes → ℕ
little_endian [] = 0
little_endian (x ∷ bytes) = x + 256 * little_endian bytes

abbrev pub power_256 : ℕ → ℕ
power_256 zero = 1
power_256 (suc w) = 256 * power_256 w

-- two's complement
abbrev pub as_signed : ℕ → ℕ → ℤ
as_signed w n = if ltb (n + n) (power_256 w) then pos n else sub_ℕ n (power_256 w)

-- struct.unpack(fmt, raw)[0]
abbrev pub scalar_of : Format → Bytes → Value
scalar_of (unsigned w) raw = whole (pos (little_endian raw))
scalar_of (signed w) raw = whole (as_signed w (little_endian raw))
scalar_of (floating w) raw = real raw
scalar_of truth raw = flag (not (eqb (little_endian raw) 0))

-- `_unpack` of the formats "<I" and "<Q", of w bytes
unfoldable pub unpack : ℕ → Bytes → Result GgufError (ℕ × Bytes)
unfolding read_exact
unpack w bytes = read_exact w bytes >>= λ (raw, rest). ok (little_endian raw, rest)

-- `_unpack` of the format of a value
unfoldable pub unpack_scalar : Format → Bytes → Result GgufError (Value × Bytes)
unfolding read_exact
unpack_scalar format bytes =
    read_exact (width format) bytes >>= λ (raw, rest). ok (scalar_of format raw, rest)

-- What `_value` tells apart.
pub data Shape : Type 0 where
  scalar : Format → Shape
  string array unknown : Shape

abbrev pub shape_otherwise : ℕ → Option Format → Shape
shape_otherwise kind (some format) = scalar format
shape_otherwise kind none = if eqb kind 8 then string else (if eqb kind 9 then array else unknown)

unfoldable pub shape_of : ℕ → Shape
unfolding lookup
shape_of kind = shape_otherwise kind (lookup kind scalars)

-- `for _ in range(count): _value(handle, inner)`
abbrev pub skip_each :
    (Bytes → Result GgufError (Value × Bytes))
    → Value
    → ℕ
    → Bytes
    → Result GgufError (Value × Bytes)
skip_each next value zero bytes = ok (value, bytes)
skip_each next value (suc n) bytes = next bytes >>= λ (_, rest). skip_each next value n rest

-- the items of an array
abbrev pub skip_items :
    (Bytes → Result GgufError (Value × Bytes))
    → Shape
    → ℕ
    → Bytes
    → Result GgufError (Value × Bytes)
skip_items next (scalar format) count bytes =
    if leb offset_limit (width format * count)
    then raised too_large
    else ok (items count, skip (width format * count) bytes)
skip_items next string count bytes = skip_each next (items count) count bytes
skip_items next array count bytes = skip_each next (items count) count bytes
skip_items next unknown count bytes = skip_each next (items count) count bytes

-- `decode` is raw.decode("utf-8", "replace"), and `show_kind` prints a number.
module _ (decode : Bytes → String) (show_kind : ℕ → String) where
  -- `_string`
  unfoldable pub read_text : Bytes → Result GgufError (String × Bytes)
  unfolding unpack read_exact
  read_text bytes = unpack 8 bytes >>= λ (size, rest).
      if leb offset_limit size
      then raised too_large
      else (read_exact size rest >>= λ (raw, after). ok (decode raw, after))

  -- `_value`, where `next` reads an item of a given kind
  unfoldable pub value_in :
      (ℕ → Bytes → Result GgufError (Value × Bytes))
      → Shape
      → Bytes
      → Result GgufError (Value × Bytes)
  unfolding read_text unpack unpack_scalar shape_of
  value_in next (scalar format) bytes = unpack_scalar format bytes
  value_in next string bytes = read_text bytes >>= λ (found, rest). ok (text found, rest)
  value_in next array bytes = unpack 4 bytes >>= λ (inner, rest).
      unpack 8 rest >>= λ (count, after). skip_items (next inner) (shape_of inner) count after
  value_in next unknown bytes = raised unknown_type

  -- `_value`
  unfoldable pub value_of : ℕ → ℕ → Bytes → Result GgufError (Value × Bytes)
  unfolding value_in shape_of
  value_of zero kind bytes = raised out_of_fuel
  value_of (suc fuel) kind bytes = value_in (value_of fuel) (shape_of kind) bytes

  -- the loop over the pairs
  unfoldable pub read_pairs : ℕ → ℕ → Dict Value → Bytes → Result GgufError (Dict Value × Bytes)
  unfolding read_text unpack value_of
  read_pairs fuel zero metadata bytes = ok (metadata, bytes)
  read_pairs fuel (suc n) metadata bytes = read_text bytes >>= λ (key, rest).
      unpack 4 rest >>= λ (kind, after).
      value_of fuel kind after >>= λ (value, last). read_pairs fuel n (put key value metadata) last

  unfoldable pub read_shape : ℕ → Bytes → Result GgufError (List ℕ × Bytes)
  unfolding unpack
  read_shape zero bytes = ok ([], bytes)
  read_shape (suc n) bytes = unpack 8 bytes >>= λ (size, rest).
      read_shape n rest >>= λ (shape, last). ok (size ∷ shape, last)

  -- one turn of the loop over the tensors
  unfoldable pub read_tensor : Bytes → Result GgufError (Tensor × Bytes)
  unfolding read_text unpack read_shape type_name
  read_tensor bytes = read_text bytes >>= λ (name, b1). unpack 4 b1 >>= λ (dims, b2).
      read_shape dims b2 >>= λ (shape, b3). unpack 4 b3 >>= λ (kind, b4). unpack 8 b4 >>= λ (_, b5).
      ok (record { name = name; shape = shape; kind = type_name show_kind kind }, b5)

  unfoldable pub read_tensors : ℕ → Bytes → Result GgufError (List Tensor × Bytes)
  unfolding read_tensor
  read_tensors zero bytes = ok ([], bytes)
  read_tensors (suc n) bytes = read_tensor bytes >>= λ (tensor, rest).
      read_tensors n rest >>= λ (tensors, last). ok (tensor ∷ tensors, last)

  -- `read`, after the magic
  unfoldable pub read_header : ℕ → Bytes → Result GgufError (Gguf × Bytes)
  unfolding unpack read_pairs read_tensors
  read_header fuel bytes = unpack 4 bytes >>= λ (version, b1).
      if ltb version 2
      then raised old_version
      else (unpack 8 b1 >>= λ (tensors, b2). unpack 8 b2 >>= λ (pairs, b3).
          read_pairs fuel pairs [] b3 >>= λ (metadata, b4).
          read_tensors tensors b4 >>= λ (found, b5).
          ok (record { version = version; metadata = metadata; tensors = found }, b5))

  abbrev checked_magic : ℕ → Result GgufError (Bytes × Bytes) → Result GgufError (Gguf × Bytes)
  checked_magic fuel (raised e) = raised not_gguf
  checked_magic fuel (ok (raw, rest)) =
      if same_bytes raw magic then read_header fuel rest else raised not_gguf

  -- `read`, of the bytes of a file; what is left of them is returned too.
  unfoldable pub read : Bytes → Result GgufError (Gguf × Bytes)
  unfolding read_exact read_header
  read file = checked_magic (suc (length file)) (read_exact 4 file)
