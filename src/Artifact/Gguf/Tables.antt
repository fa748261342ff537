-- ===== src/Artifact/Gguf/Tables.antt =====
-- artifact/gguf.py: the tables of the format.
use Prim.Native.String.{◌++◌}
use microtensor_subnet.Base.{ℕ, String, List, [], ◌∷◌, Option, none, some, eqb, if◌then◌else◌}

-- d.get(k), with numbers as keys
unfoldable pub lookup {ℓ} : {A : Type ℓ} → ℕ → List (ℕ × A) → Option A
lookup k [] = none
lookup k ((j, a) ∷ table) = let rest = lookup k table in if eqb j k then some a else rest

-- A format of struct: an integer or a float of so many bytes, or a truth value.
pub data Format : Type 0 where
  unsigned signed floating : ℕ → Format
  truth : Format

-- struct.calcsize
abbrev pub width : Format → ℕ
width (unsigned w) = w
width (signed w) = w
width (floating w) = w
width truth = 1

-- SCALARS
abbrev pub scalars : List (ℕ × Format)
scalars =
    (0, unsigned 1)
    ∷ (1, signed 1)
    ∷ (2, unsigned 2)
    ∷ (3, signed 2)
    ∷ (4, unsigned 4)
    ∷ (5, signed 4)
    ∷ (6, floating 4)
    ∷ (7, truth)
    ∷ (10, unsigned 8)
    ∷ (11, signed 8)
    ∷ (12, floating 8)
    ∷ []

-- TYPE_NAMES
abbrev pub type_names : List (ℕ × String)
type_names =
    (0, "F32")
    ∷ (1, "F16")
    ∷ (2, "Q4_0")
    ∷ (3, "Q4_1")
    ∷ (6, "Q5_0")
    ∷ (7, "Q5_1")
    ∷ (8, "Q8_0")
    ∷ (9, "Q8_1")
    ∷ (10, "Q2_K")
    ∷ (11, "Q3_K")
    ∷ (12, "Q4_K")
    ∷ (13, "Q5_K")
    ∷ (14, "Q6_K")
    ∷ (15, "Q8_K")
    ∷ (16, "IQ2_XXS")
    ∷ (17, "IQ2_XS")
    ∷ (18, "IQ3_XXS")
    ∷ (19, "IQ1_S")
    ∷ (20, "IQ4_NL")
    ∷ (21, "IQ3_S")
    ∷ (22, "IQ2_S")
    ∷ (23, "IQ4_XS")
    ∷ (24, "I8")
    ∷ (25, "I16")
    ∷ (26, "I32")
    ∷ (27, "I64")
    ∷ (28, "F64")
    ∷ (29, "IQ1_M")
    ∷ (30, "BF16")
    ∷ (34, "TQ1_0")
    ∷ (35, "TQ2_0")
    ∷ []

-- BELOW_FOUR_BITS
abbrev pub below_four : List String
below_four =
    "Q2_K" ∷ "Q3_K" ∷ "IQ2_XXS" ∷ "IQ2_XS" ∷ "IQ3_XXS" ∷ "IQ1_S" ∷ "IQ3_S" ∷ "IQ2_S" ∷ "IQ1_M"
    ∷ "TQ1_0" ∷ "TQ2_0" ∷ []

abbrev pub or_else : Option String → String → String
or_else none other = other
or_else (some name) other = name

-- TYPE_NAMES.get(kind, f"type{kind}")
unfoldable pub type_name : (ℕ → String) → ℕ → String
unfolding lookup
type_name show_kind kind = or_else (lookup kind type_names) ("type" ++ show_kind kind)
