-- ===== src/Artifact/Gguf/Counts.antt =====
-- artifact/gguf.py: the properties `elements`, `parameters` and `below_four_bits` of what was read.
use Prim.Native.Nat.{◌*◌}
use microtensor_subnet.Base.{
  ℕ, ◌≡◌, ◌≤◌, refl, String, Bool, true, false, not, List, [], ◌∷◌, Option, none, some, eqb, ◌&&◌,
  ◌==◌, map, keep, contains, sum_of, sum_of-keep-le, arith,
}
use microtensor_subnet.Base.Dict.{Dict, get, put}
use microtensor_subnet.Artifact.Gguf.Tables.{below_four}
use microtensor_subnet.Artifact.Gguf.{Tensor, Gguf}

-- math.prod(shape)
abbrev product : List ℕ → ℕ
product [] = 1
product (n ∷ shape) = n * product shape

abbrev pub elements : Tensor → ℕ
elements t = product t.shape

abbrev same_shape : List ℕ → List ℕ → Bool
same_shape [] [] = true
same_shape [] (y ∷ ys) = false
same_shape (x ∷ xs) [] = false
same_shape (x ∷ xs) (y ∷ ys) = eqb x y && same_shape xs ys

-- {t.name: t.shape for t in tensors}
abbrev shapes_from : Dict (List ℕ) → List Tensor → Dict (List ℕ)
shapes_from shapes [] = shapes
shapes_from shapes (t ∷ tensors) = shapes_from (put t.name t.shape shapes) tensors

-- An output that has no shape is not tied.
abbrev same_found : Option (List ℕ) → Option (List ℕ) → Bool
same_found none embedding = false
same_found (some output) none = false
same_found (some output) (some embedding) = same_shape output embedding

-- whether the output has the shape of the embedding
unfoldable pub tied : List Tensor → Bool
unfolding get put
tied tensors =
    same_found (get "output.weight" (shapes_from [] tensors))
      (get "token_embd.weight" (shapes_from [] tensors))

-- `parameters`
unfoldable pub parameters : Gguf → ℕ
unfolding tied
parameters g =
    sum_of elements (keep (λ t. not (tied g.tensors && t.name == "output.weight")) g.tensors)

-- `below_four_bits`
unfoldable pub below_four_bits : Gguf → List String
below_four_bits g = map (λ t. t.name) (keep (λ t. contains t.kind below_four) g.tensors)

-- A tied output is counted once, so the count is at most that of all tensors.
pub parameters-le : (g : Gguf) → parameters g ≤ sum_of elements g.tensors
unfolding parameters
parameters-le g =
    sum_of-keep-le elements (λ t. not (tied g.tensors && t.name == "output.weight")) g.tensors

-- If the output is not tied, all tensors are counted.
pub parameters_untied :
    (g : Gguf) → tied g.tensors ≡ false → parameters g ≡ sum_of elements g.tensors
unfolding parameters
parameters_untied g h = rw (h) (keep_all g.tensors)
  where
    keep_all :
        (tensors : List Tensor)
        → sum_of elements (keep (λ t. true) tensors) ≡ sum_of elements tensors
    keep_all [] = refl
    keep_all (t ∷ tensors) = omega (arith, keep_all tensors)

abbrev tensor : String → ℕ → Tensor
tensor name n = record { name = name; shape = n ∷ 10 ∷ []; kind = "Q2_K" }

abbrev sample : ℕ → Gguf
sample n = record {
  version = 3;
  metadata = [];
  tensors = tensor "token_embd.weight" 3 ∷ tensor "output.weight" n ∷ [];
}

parameters-tied : parameters (sample 3) ≡ 30
unfolding parameters
parameters-tied = refl

parameters-apart : parameters (sample 4) ≡ 70
unfolding parameters
parameters-apart = refl

below_four_bits-sample : below_four_bits (sample 3) ≡ "token_embd.weight" ∷ "output.weight" ∷ []
unfolding below_four_bits
below_four_bits-sample = refl
