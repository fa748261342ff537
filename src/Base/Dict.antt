-- ===== src/Base/Dict.antt =====
-- Python's `dict` with text keys: the entries in order of insertion, each key once.
use Prim.Native.Nat.{ℕ, ◌+◌, ◌≤◌}
use Prim.Native.String.{String}
use mathlib.Core.Bool.{Bool, true, false}
use mathlib.Core.Path.{◌≡◌, refl}
use mathlib.Core.Option.{Option, none, some}
use mathlib.Core.List.{List, [], ◌∷◌, map}
use native.Mathlib.Omega.{arith}
use text.Mathlib.TextEquality.{eq_iff}
use microtensor_subnet.Base.Tests.{◌==◌, if◌then◌else◌}
use microtensor_subnet.Base.Lists.{sum_of, keep, sum_of-keep-le, All}

abbrev pub Dict {ℓ} : Type ℓ → Type ℓ
Dict V = List (String × V)

module _ {ℓ} {V : Type ℓ} where
  -- d.get(k)
  unfoldable pub get : String → Dict V → Option V
  get k [] = none
  get k ((j, v) ∷ d) = if j == k then some v else get k d

  -- d.get(k, default)
  unfoldable pub get_or : String → V → Dict V → V
  get_or k v [] = v
  get_or k v ((j, w) ∷ d) = if j == k then w else get_or k v d

  -- d[k] = v
  unfoldable pub put : String → V → Dict V → Dict V
  put k v [] = (k, v) ∷ []
  put k v ((j, w) ∷ d) = if j == k then (j, v) ∷ d else (j, w) ∷ put k v d

  -- d.pop(k, None)
  unfoldable pub pop : String → Dict V → Dict V
  pop k [] = []
  pop k ((j, w) ∷ d) = let rest = pop k d in if j == k then rest else (j, w) ∷ rest

  -- k in d
  unfoldable pub has : String → Dict V → Bool
  has k [] = false
  has k ((j, w) ∷ d) = if j == k then true else has k d

  -- list(d)
  abbrev pub keys : Dict V → List String
  keys d = map (λ e. e.0) d

  pub get-put :
      (k j : String) (v : V) (d : Dict V) → get j (put k v d) ≡ (if k == j then some v else get j d)
  unfolding get put
  get-put k j v [] = refl
  get-put k j v ((i, w) ∷ d) = ground (arith, eq_iff k j, eq_iff i k, eq_iff i j, get-put k j v d)

  pub get_or-put :
      (k j : String) (v : V) (d : Dict V) (u : V)
      → get_or j u (put k v d) ≡ (if k == j then v else get_or j u d)
  unfolding get_or put
  get_or-put k j v [] u = refl
  get_or-put k j v ((i, w) ∷ d) u =
      ground (arith, eq_iff k j, eq_iff i k, eq_iff i j, get_or-put k j v d u)

  pub get_or-pop :
      (k j : String) (d : Dict V) (u : V)
      → get_or j u (pop k d) ≡ (if k == j then u else get_or j u d)
  unfolding get_or pop
  get_or-pop k j [] u = ground arith
  get_or-pop k j ((i, w) ∷ d) u =
      ground (arith, eq_iff k j, eq_iff i k, eq_iff i j, get_or-pop k j d u)

  pub get-pop : (k j : String) (d : Dict V) → get j (pop k d) ≡ (if k == j then none else get j d)
  unfolding get pop
  get-pop k j [] = ground arith
  get-pop k j ((i, w) ∷ d) = ground (arith, eq_iff k j, eq_iff i k, eq_iff i j, get-pop k j d)

  pub has-eq-get : (k : String) (d : Dict V) → get k d ≡ none → has k d ≡ false
  unfolding get has
  has-eq-get k [] h = refl
  has-eq-get k ((j, w) ∷ d) h = ground (arith, has-eq-get k d)

  pub get-has : (k : String) (d : Dict V) → has k d ≡ false → get k d ≡ none
  unfolding get has
  get-has k [] h = refl
  get-has k ((j, w) ∷ d) h = ground (arith, get-has k d)

  pub has-put :
      (k j : String) (v : V) (d : Dict V) → has j (put k v d) ≡ (if k == j then true else has j d)
  unfolding has put
  has-put k j v [] = refl
  has-put k j v ((i, w) ∷ d) = ground (arith, eq_iff k j, eq_iff i k, eq_iff i j, has-put k j v d)

  pub get-keep-none :
      (p : String × V → Bool) (k : String) (d : Dict V) → get k d ≡ none → get k (keep p d) ≡ none
  unfolding get
  get-keep-none p k [] h = refl
  get-keep-none p k ((j, w) ∷ d) h = ground (arith, get-keep-none p k d)

  -- No entry has the key.
  abbrev pub Lacks : String → Dict V → Type 0
  Lacks k d = All (λ e. (e.0 == k) ≡ false) d

  pub has-Lacks : (k : String) (d : Dict V) → has k d ≡ false → Lacks k d
  unfolding has
  has-Lacks k [] h = tt
  has-Lacks k ((j, w) ∷ d) h = (ground arith, has-Lacks k d (ground arith))

  pub get-Lacks : (k : String) (d : Dict V) → get k d ≡ none → Lacks k d
  unfolding get
  get-Lacks k [] h = tt
  get-Lacks k ((j, w) ∷ d) h = (ground arith, get-Lacks k d (ground arith))

-- sum(d.values())
unfoldable pub total : Dict ℕ → ℕ
total d = sum_of (λ e. e.1) d

-- d[k] = d.get(k, 0) + n
unfoldable pub add_at : String → ℕ → Dict ℕ → Dict ℕ
unfolding put get_or
add_at k n d = put k (get_or k 0 d + n) d

pub total-nil : total [] ≡ 0
unfolding total
total-nil = refl

pub get_or-nil : (k : String) → ◌≡◌ {A = ℕ} (get_or k 0 []) 0
unfolding get_or
get_or-nil k = refl

pub total-cons : (k : String) (n : ℕ) (d : Dict ℕ) → total ((k, n) ∷ d) ≡ n + total d
unfolding total
total-cons k n d = refl

put-get_or-total :
    (k : String) (v : ℕ) (d : Dict ℕ) → total (put k v d) + get_or k 0 d ≡ total d + v
unfolding total put get_or
put-get_or-total k v [] = omega arith
put-get_or-total k v ((j, w) ∷ d) = ground (arith, put-get_or-total k v d)

pub total-add_at : (k : String) (n : ℕ) (d : Dict ℕ) → total (add_at k n d) ≡ total d + n
unfolding add_at
total-add_at k n d = omega (arith, put-get_or-total k (get_or k 0 d + n) d)

pub get_or-add_at :
    (k j : String) (n : ℕ) (d : Dict ℕ)
    → get_or j 0 (add_at k n d) ≡ get_or j 0 d + (if k == j then n else 0)
unfolding add_at
get_or-add_at k j n d = rw (get_or-put k j (get_or k 0 d + n) d 0) (ground (arith, eq_iff k j))

pub total-keep-le : (p : String × ℕ → Bool) (d : Dict ℕ) → total (keep p d) ≤ total d
unfolding total
total-keep-le p d = sum_of-keep-le (λ e. e.1) p d

pub get-add_at_ne :
    (k j : String) (n : ℕ) (d : Dict ℕ) → (k == j) ≡ false → get j (add_at k n d) ≡ get j d
unfolding add_at
get-add_at_ne k j n d h = rw (get-put k j (get_or k 0 d + n) d, h, if◌then◌else◌) refl
