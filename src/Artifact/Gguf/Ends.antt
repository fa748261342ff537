-- ===== src/Artifact/Gguf/Ends.antt =====
-- The reader ends on every file: the fuel that `read` takes is enough.
-- The reader ends on every file: the fuel that `read` takes is enough.
use Prim.Native.Nat.{zero, suc}
use microtensor_subnet.Base.{
  ℕ, ◌≡◌, ◌≤◌, ◌<◌, refl, ap, ◌≢◌, ◌⊎◌, inl, inr, String, [], ◌∷◌, Result, ok, raised, ◌>>=◌, ltb,
  leb, length, arith, if◌then◌else◌, Bool-cases,
}
use microtensor_subnet.Base.Dict.{Dict, put}
use microtensor_subnet.Artifact.Gguf.{
  GgufError, old_version, too_large, out_of_fuel, offset_limit, Bytes, Value, text, Gguf,
  same_bytes, magic, read_exact, unpack, Shape, scalar, string, array, unknown, shape_of,
  skip_items, read_text, value_in, value_of, read_pairs, read_shape, read_tensor, read_tensors,
  read_header, checked_magic, read,
}
use microtensor_subnet.Artifact.Gguf.Room.{
  ran_out, Leaves, >>=-Leaves, if-Leaves, read_exact-Leaves, unpack-Leaves, unpack_scalar-Leaves,
  skip_items-Leaves, widened,
}

module _ (decode : Bytes → String) (show_kind : ℕ → String) where
  read_text-Leaves : (bytes : Bytes) → Leaves (length bytes) (read_text decode show_kind bytes)
  unfolding read_text
  read_text-Leaves bytes =
      >>=-Leaves (length bytes) (length bytes) (unpack 8 bytes)
        (λ (size, rest).
          if leb offset_limit size
          then raised too_large
          else (read_exact size rest >>= λ (raw, after). ok (decode raw, after)))
        (unpack-Leaves 8 (length bytes) bytes (omega arith))
        (λ size rest h.
          if-Leaves (length bytes) (leb offset_limit size) too_large
            (read_exact size rest >>= λ (raw, after). ok (decode raw, after)) refl
            (>>=-Leaves (length bytes) (length bytes) (read_exact size rest)
              (λ (raw, after). ok (decode raw, after))
              (read_exact-Leaves size (length bytes) rest (omega arith)) (λ raw after k. k)))

  value_in-Leaves :
      (fuel : ℕ) (next : ℕ → Bytes → Result GgufError (Value × Bytes)) (shape : Shape)
      (bytes : Bytes)
      → ((kind : ℕ) (left : Bytes) → length left < fuel → Leaves (length left) (next kind left))
      → length bytes < suc fuel
      → Leaves (length bytes) (value_in decode show_kind next shape bytes)
  unfolding value_in
  value_in-Leaves fuel next (scalar format) bytes safe h = unpack_scalar-Leaves format bytes
  value_in-Leaves fuel next string bytes safe h =
      >>=-Leaves (length bytes) (length bytes) (read_text decode show_kind bytes)
        (λ (found, rest). ok (text found, rest)) (read_text-Leaves bytes) (λ found rest k. k)
  value_in-Leaves fuel next unknown bytes safe h = refl
  value_in-Leaves fuel next array [] safe h = unfold unpack read_exact in refl
  value_in-Leaves fuel next array (x ∷ bytes) safe h =
      >>=-Leaves (length bytes) (suc (length bytes)) (unpack 4 (x ∷ bytes))
        (λ (inner, rest).
          unpack 8 rest >>= λ (count, after). skip_items (next inner) (shape_of inner) count after)
        (unpack-Leaves 4 (length bytes) (x ∷ bytes) (omega arith))
        (λ inner rest k.
          >>=-Leaves (length bytes) (suc (length bytes)) (unpack 8 rest)
            (λ (count, after). skip_items (next inner) (shape_of inner) count after)
            (unpack-Leaves 8 (length bytes) rest (omega arith))
            (λ count after m.
              widened (length bytes) (suc (length bytes))
                (skip_items (next inner) (shape_of inner) count after) (omega arith)
                (skip_items-Leaves (length bytes) (next inner) (shape_of inner) count after
                  (λ left n.
                    widened (length left) (length bytes) (next inner left) n
                      (safe inner left (omega arith)))
                  m)))

  -- With more fuel than bytes, a value is read or refused.
  value_of-Leaves :
      (fuel kind : ℕ) (bytes : Bytes)
      → length bytes < fuel
      → Leaves (length bytes) (value_of decode show_kind fuel kind bytes)
  unfolding value_of
  value_of-Leaves zero kind bytes h = absurd (omega arith)
  value_of-Leaves (suc fuel) kind bytes h =
      value_in-Leaves fuel (value_of decode show_kind fuel) (shape_of kind) bytes
        (λ inner left k. value_of-Leaves fuel inner left k) h

  read_pairs-Leaves :
      (fuel most n : ℕ) (metadata : Dict Value) (bytes : Bytes)
      → most < fuel
      → length bytes ≤ most
      → Leaves most (read_pairs decode show_kind fuel n metadata bytes)
  unfolding read_pairs
  read_pairs-Leaves fuel most zero metadata bytes room h = h
  read_pairs-Leaves fuel most (suc n) metadata bytes room h =
      >>=-Leaves most most (read_text decode show_kind bytes)
        (λ (key, rest). unpack 4 rest >>= λ (kind, after).
          value_of decode show_kind fuel kind after >>= λ (value, last).
          read_pairs decode show_kind fuel n (put key value metadata) last)
        (widened (length bytes) most (read_text decode show_kind bytes) h (read_text-Leaves bytes))
        (λ key rest h1.
          >>=-Leaves most most (unpack 4 rest)
            (λ (kind, after). value_of decode show_kind fuel kind after >>= λ (value, last).
              read_pairs decode show_kind fuel n (put key value metadata) last)
            (unpack-Leaves 4 most rest (omega arith))
            (λ kind after h2.
              >>=-Leaves most most (value_of decode show_kind fuel kind after)
                (λ (value, last). read_pairs decode show_kind fuel n (put key value metadata) last)
                (widened (length after) most (value_of decode show_kind fuel kind after) h2
                  (value_of-Leaves fuel kind after (omega arith)))
                (λ value last h3.
                  read_pairs-Leaves fuel most n (put key value metadata) last room h3)))

  read_shape-Leaves :
      (most n : ℕ) (bytes : Bytes)
      → length bytes ≤ most
      → Leaves most (read_shape decode show_kind n bytes)
  unfolding read_shape
  read_shape-Leaves most zero bytes h = h
  read_shape-Leaves most (suc n) bytes h =
      >>=-Leaves most most (unpack 8 bytes)
        (λ (size, rest).
          read_shape decode show_kind n rest >>= λ (shape, last). ok (size ∷ shape, last))
        (unpack-Leaves 8 most bytes (omega arith))
        (λ size rest h1.
          >>=-Leaves most most (read_shape decode show_kind n rest)
            (λ (shape, last). ok (size ∷ shape, last)) (read_shape-Leaves most n rest h1)
            (λ shape last k. k))

  read_tensor-Leaves :
      (most : ℕ) (bytes : Bytes)
      → length bytes ≤ most
      → Leaves most (read_tensor decode show_kind bytes)
  unfolding read_tensor
  read_tensor-Leaves most bytes h =
      >>=-Leaves most most (read_text decode show_kind bytes) _
        (widened (length bytes) most (read_text decode show_kind bytes) h (read_text-Leaves bytes))
        (λ name b1 h1.
          >>=-Leaves most most (unpack 4 b1) _ (unpack-Leaves 4 most b1 (omega arith))
            (λ dims b2 h2.
              >>=-Leaves most most (read_shape decode show_kind dims b2) _
                (read_shape-Leaves most dims b2 h2)
                (λ shape b3 h3.
                  >>=-Leaves most most (unpack 4 b3) _ (unpack-Leaves 4 most b3 (omega arith))
                    (λ kind b4 h4.
                      >>=-Leaves most most (unpack 8 b4) _ (unpack-Leaves 8 most b4 (omega arith))
                        (λ offset b5 h5. h5)))))

  read_tensors-Leaves :
      (most n : ℕ) (bytes : Bytes)
      → length bytes ≤ most
      → Leaves most (read_tensors decode show_kind n bytes)
  unfolding read_tensors
  read_tensors-Leaves most zero bytes h = h
  read_tensors-Leaves most (suc n) bytes h =
      >>=-Leaves most most (read_tensor decode show_kind bytes) _ (read_tensor-Leaves most bytes h)
        (λ tensor rest h1.
          >>=-Leaves most most (read_tensors decode show_kind n rest) _
            (read_tensors-Leaves most n rest h1) (λ tensors last k. k))

  read_header-Leaves :
      (fuel most : ℕ) (bytes : Bytes)
      → most < fuel
      → length bytes ≤ most
      → Leaves most (read_header decode show_kind fuel bytes)
  unfolding read_header
  read_header-Leaves fuel most bytes room h =
      >>=-Leaves most most (unpack 4 bytes) _ (unpack-Leaves 4 most bytes (omega arith))
        (λ version b1 h1. if-Leaves most (ltb version 2) old_version _ refl (
          >>=-Leaves most most (unpack 8 b1) _ (unpack-Leaves 8 most b1 (omega arith))
            (λ tensors b2 h2.
              >>=-Leaves most most (unpack 8 b2) _ (unpack-Leaves 8 most b2 (omega arith))
                (λ pairs b3 h3.
                  >>=-Leaves most most (read_pairs decode show_kind fuel pairs [] b3) _
                    (read_pairs-Leaves fuel most pairs [] b3 room h3)
                    (λ metadata b4 h4.
                      >>=-Leaves most most (read_tensors decode show_kind tensors b4) _
                        (read_tensors-Leaves most tensors b4 h4) (λ found b5 h5. h5))))))

  read-Leaves : (file : Bytes) → Leaves (length file) (read decode show_kind file)
  unfolding read
  read-Leaves file =
      by_magic (read_exact 4 file) (read_exact-Leaves 4 (length file) file (omega arith))
    where
      by_magic :
          (r : Result GgufError (Bytes × Bytes))
          → Leaves (length file) r
          → Leaves (length file) (checked_magic decode show_kind (suc (length file)) r)
      by_magic (raised e) h = refl
      by_magic (ok (raw, rest)) h = elim (Bool-cases (same_bytes raw magic)) [
        | inl e ↦
            rw (e, if◌then◌else◌)
              (read_header-Leaves (suc (length file)) (length file) rest (omega arith) h)
        | inr e ↦ rw (e, if◌then◌else◌) refl
      ]

-- The reader ends on every file, with a header or with an error, however deep its arrays are nested
-- and however many items they announce; a header leaves at most as many bytes as the file has.
pub read_total :
    (decode : Bytes → String) (show_kind : ℕ → String) (file : Bytes)
    → ((header : Gguf) × (rest : Bytes) × (read decode show_kind file ≡ ok (header, rest))
        × (length rest ≤ length file))
      ⊎ ((e : GgufError) × (read decode show_kind file ≡ raised e) × (e ≢ out_of_fuel))
read_total decode show_kind file =
    by_result (read decode show_kind file) (read-Leaves decode show_kind file)
  where
    by_result :
        (r : Result GgufError (Gguf × Bytes))
        → Leaves (length file) r
        → ((header : Gguf) × (rest : Bytes) × (r ≡ ok (header, rest)) × (length rest ≤ length file))
          ⊎ ((e : GgufError) × (r ≡ raised e) × (e ≢ out_of_fuel))
    by_result (ok (header, rest)) h = inl (header, rest, refl, h)
    by_result (raised e) h = inr (e, refl, λ same. cc (ap ran_out same))
