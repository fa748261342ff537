-- ===== src/Base/Results.antt =====
-- Code that may raise: a result with the exception as a value.
use mathlib.Core.Path.{◌≡◌, refl, ap, subst}
use mathlib.Core.Bool.{Bool, true, false}
use mathlib.Core.List.{List, [], ◌∷◌}
use microtensor_subnet.Base.Lists.{All₂}

pub data Result {ℓ} (E : Type 0) (A : Type ℓ) : Type ℓ where
  ok : A → Result E A
  raised : E → Result E A

module _ {E : Type 0} where
  -- `if test: raise failure`
  abbrev pub raise_if : Bool → E → Result E (Unit {0})
  raise_if false failure = ok tt
  raise_if true failure = raised failure

  infixl 5 ◌>>=◌ ◌>>◌
  abbrev pub ◌>>=◌ {ℓ κ} : {X : Type ℓ} {Y : Type κ} → Result E X → (X → Result E Y) → Result E Y
  raised failure >>= next = raised failure
  ok x >>= next = next x

  -- What a chain of two steps returned was returned by the second, on what the first returned.
  pub >>=-eq-ok {ℓ κ} :
      {X : Type ℓ} {Y : Type κ} (first : Result E X) (next : X → Result E Y) {y : Y}
      → (first >>= next) ≡ ok y
      → (x : X) × (first ≡ ok x) × (next x ≡ ok y)
  >>=-eq-ok (raised failure) next returned = cc
  >>=-eq-ok (ok x) next returned = (x, refl, returned)

  abbrev pub ◌>>◌ {ℓ} : {Y : Type ℓ} → Result E (Unit {0}) → Result E Y → Result E Y
  check >> then_do = check >>= λ _. then_do

  -- A loop that appends one result for each element, and stops at the first exception.
  abbrev pub traverse {ℓ κ} :
      {A : Type ℓ} {B : Type κ} → (A → Result E B) → List A → Result E (List B)
  traverse f [] = ok []
  traverse f (x ∷ xs) = let rest = traverse f xs in f x >>= λ y. rest >>= λ ys. ok (y ∷ ys)

abbrev ok_or {ℓ} : {E : Type 0} {A : Type ℓ} → A → Result E A → A
ok_or d (ok a) = a
ok_or d (raised e) = d

pub ok-injective {ℓ} :
    {E : Type 0} {A : Type ℓ} {a b : A} → ◌≡◌ {A = Result E A} (ok a) (ok b) → a ≡ b
ok-injective {a} h = ap (ok_or a) h

-- What a completed loop returns holds, place by place, what each element gave.
pub traverse-All₂ {ℓ κ} :
    {E : Type 0} {A : Type ℓ} {B : Type κ} (f : A → Result E B) (xs : List A) {ys : List B}
    → traverse f xs ≡ ok ys
    → All₂ (λ x y. f x ≡ ok y) xs ys
traverse-All₂ f [] {ys = []} h = tt
traverse-All₂ f [] {ys = y ∷ ys} h = absurd (cc)
traverse-All₂ f (x ∷ xs) {ys} h =
    let (y, fx, more) = >>=-eq-ok (f x) _ h in
    let (zs, rest, whole) = >>=-eq-ok (traverse f xs) _ more in
    subst (All₂ (λ a b. f a ≡ ok b) (x ∷ xs)) (ok-injective whole) (fx, traverse-All₂ f xs rest)
