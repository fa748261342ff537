-- ===== src/Serving/Plan/Assign.antt =====
-- serving/plan.py, `assign`: which offer goes on which gpu.
use microtensor_subnet.Base.{
  ℕ, ◌+◌, String, Bool, false, not, List, [], ◌∷◌, Option, none, some, ltb, eqb, ◌&&◌, ◌==◌,
  text_lt, if◌then◌else◌,
}
use microtensor_subnet.Base.Dict.{Dict, get, get_or, put, add_at}
use microtensor_subnet.Base.Floats.{Floats}
use microtensor_subnet.Serving.Plan.{Offer}

-- `Held`: the model and the digest on each gpu
abbrev pub Held : Type 0
Held = Dict (String × String)

-- A place of two tuples that are compared, and what is compared if it is equal.
abbrev pub by_ℕ : ℕ → ℕ → Bool → Bool
by_ℕ a b rest = if eqb a b then rest else ltb a b

abbrev pub by_float : {F : Type 0} → Floats F → F → F → Bool → Bool
by_float f a b rest = if f.eq a b then rest else f.lt a b

-- `0 if test else 1`
abbrev pub zero_if : Bool → ℕ
zero_if test = if test then 0 else 1

-- current is not None and current[0] == offer.model
abbrev pub keeps : {F : Type 0} → Option (String × String) → Offer F → Bool
keeps none o = false
keeps (some (model, digest)) o = model == o.model

-- wish and offer.model == wish
abbrev pub wishes : {F : Type 0} → String → Offer F → Bool
wishes wish o = not (wish == "") && o.model == wish

-- min(offers, key=...): the first of the least
unfoldable pub least :
    {F : Type 0} → (Offer F → Offer F → Bool) → Offer F → List (Offer F) → Offer F
least less best [] = best
least less best (o ∷ offers) = least less (if less o best then o else best) offers

module _ {F : Type 0} (f : Floats F) where
  abbrev score : Dict ℕ → Option (String × String) → Offer F → F
  score counts current o =
      f.mul (f.div o.wanted (f.of_ℕ (get_or o.model 0 counts + 1)))
        (if keeps current o then f.keep_margin else f.of_ℕ 1)

  -- key(a) < key(b)
  unfoldable pub before : Dict ℕ → Option (String × String) → String → Offer F → Offer F → Bool
  unfolding get_or text_lt
  before counts current wish a b = by_ℕ (zero_if (wishes wish a)) (zero_if (wishes wish b)) (
      by_float f (f.neg (score counts current a)) (f.neg (score counts current b)) (
        by_ℕ (zero_if (keeps current a)) (zero_if (keeps current b)) (
          by_ℕ (zero_if a.cold) (zero_if b.cold)
            (by_float f a.vram_gb b.vram_gb (text_lt a.model b.model)))))

  -- the choice for one gpu, where the offers are `first` and `others`
  unfoldable pub chosen_for :
      Offer F → List (Offer F) → Held → Dict String → Dict ℕ → String → Offer F
  unfolding before least get get_or
  chosen_for first others holding wished counts gpu =
      least (before counts (get gpu holding) (get_or gpu "" wished)) first others

  -- the loop over the gpus
  unfoldable pub assign_from :
      Offer F
      → List (Offer F)
      → Held
      → Dict String
      → Dict ℕ
      → Dict (Offer F)
      → List String
      → Dict (Offer F)
  unfolding chosen_for put add_at
  assign_from first others holding wished counts assigned [] = assigned
  assign_from first others holding wished counts assigned (gpu ∷ gpus) =
      let chosen : Offer F = chosen_for first others holding wished counts gpu in
      assign_from first others holding wished (add_at chosen.model 1 counts)
        (put gpu chosen assigned) gpus

  -- `assign`; with no offer the loop breaks at once.
  unfoldable pub assign : List (Offer F) → List String → Held → Dict String → Dict (Offer F)
  unfolding assign_from
  assign [] gpus holding preferred = []
  assign (first ∷ others) gpus holding preferred =
      assign_from first others holding preferred [] [] gpus
