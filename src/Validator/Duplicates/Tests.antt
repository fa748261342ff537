-- ===== src/Validator/Duplicates/Tests.antt =====
-- Three entries: the second has the model of the first, the third the router of the first and the model of both.
use microtensor_subnet.Base.{
  ℕ, ◌≡◌, refl, String, false, List, [], ◌∷◌, ◌++◌, Option, some, none, sum_of,
}
use microtensor_subnet.Base.Dict.{get}
use microtensor_subnet.Serving.Plan.Samples.{thousandths}
use microtensor_subnet.Validator.Duplicates.{
  Entry, matched_parts, compare, compare_from, zeroed_by, similarity, zero_parts, zero_pools,
  setdefault, same_model, same_weights, behaviour_overlap,
}
use microtensor_subnet.Validator.Duplicates.Judged.{system, blamed}
use microtensor_subnet.Validator.Duplicates.Earliest.{earliest, compare-earliest}

-- The sum of a list, and a root that is right for the squares here.
abbrev fsum : List ℕ → ℕ
fsum xs = sum_of (λ x. x) xs

abbrev sqrt : ℕ → ℕ
sqrt x = x

abbrev entry : String → String → Option (List ℕ) → String → Entry ℕ
entry hotkey weights sketch routing = record {
  hotkey = hotkey;
  weights_sha256 = weights;
  sketch = sketch;
  router_sha256 = routing;
  router_sketch = none;
  outputs = [];
  outputs_checked = false;
}

abbrev first : Entry ℕ
first = entry "first" "aa" (some (1000 ∷ 0 ∷ [])) "r1"

abbrev second : Entry ℕ
second = entry "second" "aa" none "r2"

abbrev third : Entry ℕ
third = entry "third" "bb" (some (1000 ∷ 0 ∷ [])) "r2"

program : Unit {0}
unfolding compare compare_from zeroed_by matched_parts similarity zero_parts zero_pools setdefault
    same_model same_weights behaviour_overlap get
program = tt

alike : similarity thousandths fsum sqrt (1000 ∷ 0 ∷ []) (1000 ∷ 0 ∷ []) ≡ 1000
unfolding program
alike = refl

blames :
    compare thousandths fsum sqrt (first ∷ second ∷ third ∷ [])
    ≡ ("second", ("slm", "first") ∷ ("system", "first") ∷ [])
      ∷ ("third", ("slm", "first") ∷ ("system", "first") ∷ ("router", "second") ∷ [])
      ∷ []
unfolding program
blames = refl

compare-earliest_example :
    blamed system
      (get "third" (compare thousandths fsum sqrt ((first ∷ second ∷ []) ++ third ∷ [])))
    ≡ earliest thousandths fsum sqrt system third (first ∷ second ∷ [])
compare-earliest_example =
    compare-earliest thousandths fsum sqrt system (first ∷ second ∷ []) third [] (refl, (refl, tt))
      tt
