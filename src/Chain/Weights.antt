-- ===== src/Chain/Weights.antt =====
-- chain/weights.py: the weights that are set on chain, as integers of sixteen bits. A uid is not
-- negative; `F` is the type of floating-point numbers.
pub mod Counted
pub mod Total
pub mod Tests
use microtensor_subnet.Base.{
  ℕ, ◌+◌, ◌-◌, Bool, true, false, not, List, [], ◌∷◌, Result, ok, raised, ◌>>=◌, ◌>>◌, raise_if,
  ltb, leb, eqb, ◌&&◌, ◌||◌, map, keep, any, take, length, sum_of, if◌then◌else◌,
}
use microtensor_subnet.Base.Int.{ℤ, pos, negsuc, sub_ℕ}
use microtensor_subnet.Base.Floats.{Floats}
use microtensor_subnet.Base.Sorting.{sort}

abbrev pub u16_max : ℕ
u16_max = 65535

pub record WeightVector : Type 0 where
  pub uids : List ℕ
  pub values : List ℕ

pub data WeightError : Type 0 where
  unpaired repeated too_large : WeightError

-- x in xs
abbrev pub among : ℕ → List ℕ → Bool
among x [] = false
among x (y ∷ ys) = eqb y x || among x ys

-- len(set(xs)) != len(xs)
abbrev pub repeats : List ℕ → Bool
repeats [] = false
repeats (x ∷ xs) = among x xs || repeats xs

-- `WeightVector.__post_init__`
unfoldable pub checked_vector : WeightVector → Result WeightError WeightVector
checked_vector v = do
  raise_if (not (eqb (length v.uids) (length v.values))) unpaired
  raise_if (repeats v.uids) repeated
  raise_if (any (λ value. ltb u16_max value) v.values) too_large
  ok v

-- `WeightVector.total`
abbrev pub sum : List ℕ → ℕ
sum values = sum_of (λ value. value) values

-- A uid with the exact value of its weight, and the value that it is rounded to.
pub record Part (F : Type 0) : Type 0 where
  pub uid : ℕ
  pub exact : F
  pub value : ℕ

-- xs[:n]
abbrev pub slice_to {ℓ} : {A : Type ℓ} → ℤ → List A → List A
slice_to (pos n) xs = take n xs
slice_to (negsuc n) xs = take (length xs - (n + 1)) xs

module _ {F : Type 0} (f : Floats F) where
  -- {uid: w for uid, w in weights.items() if w > 0.0}
  abbrev pub positive : List (ℕ × F) → List (ℕ × F)
  positive weights = keep (λ e. f.lt (f.of_ℕ 0) e.1) weights

  -- sum(positive.values())
  abbrev pub mass_from : F → List (ℕ × F) → F
  mass_from mass [] = mass
  mass_from mass (e ∷ weights) = mass_from (f.add mass e.1) weights

  -- positive[uid] / mass * total, and its integer part
  abbrev part_of : F → ℕ → ℕ × F → Part F
  part_of mass total e =
      let exact = f.mul (f.div e.1 mass) (f.of_ℕ total) in
      record { uid = e.0; exact = exact; value = f.floor exact }

  -- the uids in order, with their parts
  unfoldable pub parts_of : ℕ → List (ℕ × F) → List (Part F)
  unfolding sort
  parts_of total weights =
      map (part_of (mass_from (f.of_ℕ 0) weights) total) (sort (λ a b. leb a.0 b.0) weights)

  -- -(exact[i] - floors[i])
  abbrev rest_of : Part F → F
  rest_of p = f.neg (f.sub p.exact (f.of_ℕ p.value))

  -- the order by what the integer part leaves, the most first, and by uid
  unfoldable pub rest_le : Part F → Part F → Bool
  rest_le a b =
      if f.eq (rest_of a) (rest_of b) then leb a.uid b.uid else not (f.lt (rest_of b) (rest_of a))

  -- the uids of order[:shortfall]
  unfoldable pub raised_uids : ℕ → List (Part F) → List ℕ
  unfolding sort rest_le
  raised_uids total parts =
      map (λ p. p.uid) (slice_to (sub_ℕ total (sum_of (λ p. p.value) parts)) (sort rest_le parts))

  -- floors[i] += 1
  abbrev pub with_raise : List ℕ → Part F → Part F
  with_raise uids p = record p { value = p.value + (if among p.uid uids then 1 else 0) }

  -- what is kept of the parts
  unfoldable pub vector_of : List (Part F) → WeightVector
  vector_of parts =
      let kept = keep (λ p. ltb 0 p.value) parts in
      record { uids = map (λ p. p.uid) kept; values = map (λ p. p.value) kept }

  abbrev raised_parts : ℕ → List (Part F) → List (Part F)
  raised_parts total parts = map (with_raise (raised_uids total parts)) parts

  -- what follows where some weight is positive
  unfoldable pub quantise_positive : ℕ → List (ℕ × F) → Result WeightError WeightVector
  unfolding parts_of raised_uids vector_of checked_vector
  quantise_positive total weights =
      checked_vector (vector_of (raised_parts total (parts_of total weights)))

  unfoldable pub quantise_kept : ℕ → List (ℕ × F) → Result WeightError WeightVector
  unfolding quantise_positive checked_vector
  quantise_kept total [] = checked_vector (record { uids = []; values = [] })
  quantise_kept total (e ∷ weights) =
      if leb total 0
      then checked_vector (record { uids = []; values = [] })
      else quantise_positive total (e ∷ weights)

  -- `quantise_weights`
  unfoldable pub quantise_weights : List (ℕ × F) → ℕ → Result WeightError WeightVector
  unfolding quantise_kept
  quantise_weights weights total = quantise_kept total (positive weights)

-- `restrict_to_metagraph`
unfoldable pub restrict_to_metagraph : {F : Type 0} → Floats F → List (ℕ × F) → ℕ → List (ℕ × F)
restrict_to_metagraph f weights size = keep (λ e. ltb e.0 size && f.lt (f.of_ℕ 0) e.1) weights
