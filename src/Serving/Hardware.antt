-- ===== src/Serving/Hardware.antt =====
-- serving/hardware.py: the classes of hosts by the memory of a gpu.
use microtensor_subnet.Base.{
  ℕ, String, Bool, true, false, [], ◌∷◌, Option, none, some, ltb, eqb, leb, ◌&&◌, ◌||◌, ◌==◌, keep,
  text_lt, if◌then◌else◌,
}
use microtensor_subnet.Base.Floats.{Floats}
use microtensor_subnet.Base.Dict.{Dict, get}

-- SERVING_CLASSES, in GB
abbrev pub serving_classes : Dict ℕ
serving_classes = ("gpu_24gb", 24) ∷ ("gpu_80gb", 80) ∷ ("gpu_8x80gb", 640) ∷ []

-- the larger of two pairs (size, name)
abbrev larger : String × ℕ → String × ℕ → String × ℕ
larger (name, size) (name', size') =
    if ltb size size' || eqb size size' && text_lt name name' then (name', size') else (name, size)

abbrev largest_from : String × ℕ → Dict ℕ → String × ℕ
largest_from best [] = best
largest_from best (e ∷ fits) = largest_from (larger best e) fits

-- max(fits)[1] if fits else ""
unfoldable pub name_of_largest : Dict ℕ → String
unfolding text_lt
name_of_largest [] = ""
name_of_largest (e ∷ fits) = (largest_from e fits).0

-- SLACK_GB is 2.
unfoldable pub class_of : {F : Type 0} → Floats F → F → String
unfolding name_of_largest
class_of f gpu_gb =
    name_of_largest (keep (λ e. f.le (f.of_ℕ e.1) (f.add gpu_gb (f.of_ℕ 2))) serving_classes)

abbrev enough : Option ℕ → Option ℕ → Bool
enough none need = false
enough (some have) none = false
enough (some have) (some need) = leb need have

unfoldable pub satisfies : String → String → Bool
unfolding get
satisfies have need =
    if need == "" then true else enough (get have serving_classes) (get need serving_classes)
