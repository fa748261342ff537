-- ===== src/Validator/Duplicates.antt =====
-- validator/duplicates.py: which pools of which entry are copies of an earlier entry. `F` is the type of
-- floating-point numbers; the sums and roots of Python's `math` are parameters. How a sketch is made of the
-- tensors of a model, and the order of commits, are not modelled.
pub mod Judged
pub mod Earliest
pub mod Tests
use microtensor_subnet.Base.{
  ℕ, String, Bool, true, false, not, List, [], ◌∷◌, ◌++◌, Option, none, some, ltb, leb, eqb, ◌&&◌,
  ◌||◌, ◌==◌, map, keep, length, if◌then◌else◌,
}
use microtensor_subnet.Base.Dict.{Dict, get, get_or, put, has}
use microtensor_subnet.Base.Floats.{Floats}

pub record Entry (F : Type 0) : Type 0 where
  pub hotkey : String
  pub weights_sha256 : String
  pub sketch : Option (List F)
  pub router_sha256 : String
  pub router_sketch : Option (List F)
  pub outputs : Dict (List ℕ)
  pub outputs_checked : Bool

-- MODEL and ROUTER_PART
pub data Part : Type 0 where
  model router_part : Part

-- POOLS_OF
abbrev pub pools_of : Part → List String
pools_of model = "slm" ∷ "system" ∷ []
pools_of router_part = "router" ∷ "system" ∷ []

abbrev pub min_common_items : ℕ
min_common_items = 20

abbrev same_tokens : List ℕ → List ℕ → Bool
same_tokens [] [] = true
same_tokens (x ∷ xs) (y ∷ ys) = eqb x y && same_tokens xs ys
same_tokens xs ys = false

-- d.setdefault(k, v)
unfoldable pub setdefault : String → String → Dict String → Dict String
unfolding has put
setdefault k v d = if has k d then d else put k v d

-- for pool in pools: zeroed.setdefault(pool, hotkey)
unfoldable pub zero_pools : List String → String → Dict String → Dict String
unfolding setdefault
zero_pools [] hotkey zeroed = zeroed
zero_pools (pool ∷ pools) hotkey zeroed = zero_pools pools hotkey (setdefault pool hotkey zeroed)

unfoldable pub zero_parts : List Part → String → Dict String → Dict String
unfolding zero_pools
zero_parts [] hotkey zeroed = zeroed
zero_parts (part ∷ parts) hotkey zeroed =
    zero_parts parts hotkey (zero_pools (pools_of part) hotkey zeroed)

-- if zeroed: found[hotkey] = zeroed
abbrev pub with_zeroed : String → Dict String → Dict (Dict String) → Dict (Dict String)
with_zeroed hotkey [] found = found
with_zeroed hotkey (e ∷ zeroed) found = put hotkey (e ∷ zeroed) found

module _ {F : Type 0} (f : Floats F) (fsum : List F → F) (sqrt : F → F) where
  abbrev products : List F → List F → List F
  products (x ∷ xs) (y ∷ ys) = f.mul x y ∷ products xs ys
  products xs ys = []

  abbrev is_zero : F → Bool
  is_zero x = f.eq x (f.of_ℕ 0)

  abbrev cosine : F → F → F → F
  cosine dot left right =
      if is_zero left || is_zero right then f.of_ℕ 0 else f.div dot (sqrt (f.mul left right))

  -- `similarity`
  unfoldable pub similarity : List F → List F → F
  similarity a b =
      if not (eqb (length a) (length b)) || eqb (length a) 0
      then f.of_ℕ 0
      else cosine (fsum (products a b)) (fsum (products a a)) (fsum (products b b))

  -- SKETCH_SIMILARITY and SAME_OUTPUTS
  abbrev sketch_similarity : F
  sketch_similarity = f.div (f.of_ℕ 9) (f.of_ℕ 10)

  abbrev same_outputs : F
  same_outputs = f.div (f.of_ℕ 95) (f.of_ℕ 100)

  -- the share of the common items with the same tokens, with the number of common items
  abbrev share_of : Dict (List ℕ) → Dict (List ℕ) → F × ℕ
  share_of common b = if eqb (length common) 0 then (f.of_ℕ 0, 0) else (
    f.div (f.of_ℕ (length (keep (λ e. same_tokens e.1 (get_or e.0 [] b)) common)))
        (f.of_ℕ (length common)),
    length common,
  )

  -- `behaviour_overlap`
  unfoldable pub behaviour_overlap : Dict (List ℕ) → Dict (List ℕ) → F × ℕ
  unfolding has get_or
  behaviour_overlap a b = share_of (keep (λ e. has e.0 b) a) b

  abbrev similar : Option (List F) → Option (List F) → Bool
  similar (some later) (some earlier) = f.le sketch_similarity (similarity later earlier)
  similar later earlier = false

  -- `_same_weights`
  unfoldable pub same_weights : String → String → Option (List F) → Option (List F) → Bool
  unfolding similarity
  same_weights later_hash earlier_hash later_sketch earlier_sketch =
      if not (later_hash == "") && later_hash == earlier_hash
      then true
      else similar later_sketch earlier_sketch

  abbrev is_same_behaviour : F × ℕ → Bool
  is_same_behaviour (share, common) = leb min_common_items common && f.le same_outputs share

  -- `_same_model`
  unfoldable pub same_model : Entry F → Entry F → Bool
  unfolding same_weights behaviour_overlap
  same_model later earlier =
      if same_weights later.weights_sha256 earlier.weights_sha256 later.sketch earlier.sketch
      then true
      else (if not earlier.outputs_checked
          then false
          else is_same_behaviour (behaviour_overlap later.outputs earlier.outputs))

  abbrev pub same_router : Entry F → Entry F → Bool
  same_router later earlier =
      same_weights later.router_sha256 earlier.router_sha256 later.router_sketch
        earlier.router_sketch

  -- `_matched_parts`
  unfoldable pub matched_parts : Entry F → Entry F → List Part
  unfolding same_model same_weights
  matched_parts later earlier =
      (if same_model later earlier then model ∷ [] else [])
      ++ (if same_router later earlier then router_part ∷ [] else [])

  -- the loops over the earlier entries
  unfoldable pub zeroed_by : Entry F → List (Entry F) → Dict String → Dict String
  unfolding zero_parts matched_parts
  zeroed_by later [] zeroed = zeroed
  zeroed_by later (earlier ∷ more) zeroed =
      zeroed_by later more (zero_parts (matched_parts later earlier) earlier.hotkey zeroed)

  -- the loop over the entries, with those that are before
  unfoldable pub compare_from :
      List (Entry F) → List (Entry F) → Dict (Dict String) → Dict (Dict String)
  unfolding zeroed_by put
  compare_from before [] found = found
  compare_from before (later ∷ entries) found =
      compare_from (before ++ later ∷ []) entries
        (with_zeroed later.hotkey (zeroed_by later before []) found)

  -- `compare`
  unfoldable pub compare : List (Entry F) → Dict (Dict String)
  unfolding compare_from
  compare entries = compare_from [] entries []
