-- ===== src/Artifact/Gguf/Tests.antt =====
-- The header of a file with one array of metadata and one tensor, byte by byte.
use microtensor_subnet.Base.{ℕ, ◌≡◌, ◌≤◌, refl, ◌≢◌, ◌⊎◌, String, [], ◌∷◌, ◌++◌, ok, raised, length}
use microtensor_subnet.Base.Dict.{put}
use microtensor_subnet.Artifact.Gguf.{
  Gguf, GgufError, Bytes, items, ends_early, too_large, out_of_fuel, read,
}
use microtensor_subnet.Artifact.Gguf.Ends.{read_total}

-- a number below 256 in four and in eight bytes
abbrev four : ℕ → Bytes
four n = n ∷ 0 ∷ 0 ∷ 0 ∷ []

abbrev eight : ℕ → Bytes
eight n = n ∷ 0 ∷ 0 ∷ 0 ∷ 0 ∷ 0 ∷ 0 ∷ 0 ∷ []

abbrev one_letter : Bytes → String
one_letter bytes = "w"

abbrev no_name : ℕ → String
no_name n = ""

-- the magic, a version, and the numbers of tensors and pairs
abbrev opening_of : ℕ → ℕ → ℕ → Bytes
opening_of version tensors pairs =
    (71 ∷ 71 ∷ 85 ∷ 70 ∷ []) ++ (four version ++ (eight tensors ++ eight pairs))

-- "w": an array of two integers of four bytes
abbrev array_pair : Bytes
array_pair = (eight 1 ++ 119 ∷ []) ++ (four 9 ++ (four 4 ++ (eight 2 ++ (four 5 ++ four 6))))

-- "w": one dimension of seven, type 0, at 0
abbrev one_tensor : Bytes
one_tensor = (eight 1 ++ 119 ∷ []) ++ (four 1 ++ (eight 7 ++ (four 0 ++ eight 0)))

abbrev file : Bytes
file = opening_of 3 1 1 ++ (array_pair ++ one_tensor)

program : Unit {0}
unfolding read put
program = tt

read-file :
    read one_letter no_name (file ++ 1 ∷ 2 ∷ [])
    ≡ ok (
      record {
        version = 3;
        metadata = ("w", items 2) ∷ [];
        tensors = record { name = "w"; shape = 7 ∷ []; kind = "F32" } ∷ [];
      },
      1 ∷ 2 ∷ [],
    )
unfolding program
read-file = refl

read-short : read one_letter no_name (opening_of 3 1 1) ≡ raised ends_early
unfolding program
read-short = refl

-- A text of 2 ^ 63 bytes or more makes `handle.read` raise another error than GgufError.
read-large :
    read one_letter no_name (opening_of 3 0 1 ++ 0 ∷ 0 ∷ 0 ∷ 0 ∷ 0 ∷ 0 ∷ 0 ∷ 128 ∷ [])
    ≡ raised too_large
unfolding program
read-large = refl

read_total_example :
    ((header : Gguf) × (rest : Bytes) × (read one_letter no_name file ≡ ok (header, rest))
      × (length rest ≤ length file))
    ⊎ ((e : GgufError) × (read one_letter no_name file ≡ raised e) × (e ≢ out_of_fuel))
read_total_example = read_total one_letter no_name file
