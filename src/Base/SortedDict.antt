-- ===== src/Base/SortedDict.antt =====
-- The entries of a dict in another order, and by position.

use Prim.Native.String.{String}
use mathlib.Core.Bool.{Bool, false}
use mathlib.Core.Path.{◌≡◌, refl, ◌∙◌}
use mathlib.Core.Logic.{inl, inr}
use mathlib.Core.Option.{some}
use mathlib.Core.List.{[], ◌∷◌, map}
use native.Mathlib.Omega.{arith}
use text.Mathlib.TextEquality.{eq_iff}
use microtensor_subnet.Base.Tests.{◌==◌, if◌then◌else◌, Bool-cases}
use microtensor_subnet.Base.Sorting.{sort, insert, sort-All}
use microtensor_subnet.Base.Dict.{Dict, get, Lacks}

-- Each key stands once.
abbrev pub Distinct {ℓ} : {V : Type ℓ} → Dict V → Type 0
Distinct [] = Unit
Distinct ((k, v) ∷ d) = Lacks k d × Distinct d

module _ {V : Type 0} (le : String × V → String × V → Bool) where
  get-insert :
      (k j : String) (v : V) (d : Dict V)
      → Lacks j d
      → get k (insert le (j, v) d) ≡ (if j == k then some v else get k d)
  unfolding get insert
  get-insert k j v [] h = refl
  get-insert k j v ((i, w) ∷ d) (ne, h) =
      ground (arith, eq_iff i j, eq_iff i k, eq_iff j k, get-insert k j v d h)

  -- Sorting the items of a dict changes no value.
  pub get-sort : (k : String) (d : Dict V) → Distinct d → get k (sort le d) ≡ get k d
  unfolding sort get
  get-sort k [] h = refl
  get-sort k ((j, v) ∷ d) (once, h) =
      get-insert k j v (sort le d) (sort-All le (λ e. (e.0 == j) ≡ false) d once)
      ∙ ground (arith, get-sort k d h)

-- {k: f(k, v) for k, v in d.items()}
pub get-map {ℓ κ} :
    {V : Type ℓ} {W : Type κ} (f : String → V → W) (k : String) (v : V) (d : Dict V)
    → get k d ≡ some v
    → get k (map (λ e. (e.0, f e.0 e.1)) d) ≡ some (f k v)
unfolding get
get-map f k v [] h = absurd (cc)
get-map f k v ((j, w) ∷ d) h = elim (Bool-cases (j == k)) [
  | inl e ↦ ground (arith, eq_iff j k)
  | inr e ↦ ground (arith, get-map f k v d)
]
