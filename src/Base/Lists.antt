-- ===== src/Base/Lists.antt =====
-- Lists measured and indexed by native numbers, sums, and predicates on lists.
use Prim.Native.Nat.{ℕ, zero, suc, ◌+◌, ◌*◌, ◌≤◌}
use Prim.Native.String.{String}
use mathlib.Core.Logic.{◌⊎◌, inl, inr}
use mathlib.Core.Path.{◌≡◌}
use mathlib.Core.Bool.{Bool, false, ◌||◌}
use mathlib.Core.List.{List, [], ◌∷◌, ◌++◌}
use mathlib.Core.Option.{Option, none, some}
use native.Mathlib.Omega.{arith}
use microtensor_subnet.Base.Tests.{◌==◌, if◌then◌else◌, Bool-cases}

module _ {ℓ} {A : Type ℓ} where
  abbrev pub length : List A → ℕ
  length [] = 0
  length (x ∷ xs) = suc (length xs)

  abbrev pub get_elem? : List A → ℕ → Option A
  get_elem? [] i = none
  get_elem? (x ∷ xs) zero = some x
  get_elem? (x ∷ xs) (suc i) = get_elem? xs i

  abbrev pub take : ℕ → List A → List A
  take zero xs = []
  take (suc n) [] = []
  take (suc n) (x ∷ xs) = x ∷ take n xs

  -- [x for x in xs if p(x)]
  abbrev pub keep : (A → Bool) → List A → List A
  keep p [] = []
  keep p (x ∷ xs) = let rest = keep p xs in if p x then x ∷ rest else rest

  -- any(p(x) for x in xs)
  abbrev pub any : (A → Bool) → List A → Bool
  any p [] = false
  any p (x ∷ xs) = p x || any p xs

  -- sum(f(x) for x in xs)
  abbrev pub sum_of : (A → ℕ) → List A → ℕ
  sum_of f [] = 0
  sum_of f (x ∷ xs) = f x + sum_of f xs

  abbrev pub All {κ} : (A → Type κ) → List A → Type κ
  All P [] = Unit
  All P (x ∷ xs) = P x × All P xs

-- x in xs
abbrev pub contains : String → List String → Bool
contains k [] = false
contains k (x ∷ xs) = x == k || contains k xs

-- s.add(x), on a set in order of insertion
unfoldable pub add_to_set : String → List String → List String
add_to_set k xs = if contains k xs then xs else xs ++ k ∷ []

-- No element, at any level.
pub data Never {ℓ} : Type ℓ where

-- Some element has the property.
abbrev pub Any {ℓ κ} : {A : Type ℓ} → (A → Type κ) → List A → Type κ
Any P [] = Never
Any P (x ∷ xs) = P x ⊎ Any P xs

-- The two lists have one length, and the elements at each place are related.
abbrev pub All₂ {ℓ κ μ} : {A : Type ℓ} {B : Type κ} → (A → B → Type μ) → List A → List B → Type μ
All₂ R [] [] = Unit
All₂ R (x ∷ xs) (y ∷ ys) = R x y × All₂ R xs ys
All₂ R [] (y ∷ ys) = Never
All₂ R (x ∷ xs) [] = Never

-- x not in xs
abbrev pub Absent : String → List String → Type 0
Absent x xs = All (λ y. (y == x) ≡ false) xs

pub Absent-add_to_set :
    (operator other : String) (xs : List String)
    → (other == operator) ≡ false
    → Absent operator xs
    → Absent operator (add_to_set other xs)
unfolding add_to_set
Absent-add_to_set operator other xs ne h = elim (Bool-cases (contains other xs)) [
  | inl e ↦ rw (e, if◌then◌else◌) h
  | inr e ↦ rw (e, if◌then◌else◌) (Absent-snoc xs h)
]
  where
    Absent-snoc : (ys : List String) → Absent operator ys → Absent operator (ys ++ other ∷ [])
    Absent-snoc [] h = (ne, tt)
    Absent-snoc (y ∷ ys) (a, b) = (a, Absent-snoc ys b)

pub sum_of-keep-le {ℓ} :
    {A : Type ℓ} (f : A → ℕ) (p : A → Bool) (xs : List A) → sum_of f (keep p xs) ≤ sum_of f xs
sum_of-keep-le f p [] = omega arith
sum_of-keep-le f p (x ∷ xs) = ground (arith, sum_of-keep-le f p xs)

pub sum_of-le-length {ℓ} :
    {A : Type ℓ} (f : A → ℕ) (b : ℕ)
    → ((x : A) → f x ≤ b)
    → (xs : List A) → sum_of f xs ≤ length xs * b
sum_of-le-length f b h [] = omega arith
sum_of-le-length f b h (x ∷ xs) = omega (arith, h x, sum_of-le-length f b h xs)
