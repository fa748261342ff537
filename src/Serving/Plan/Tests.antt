-- ===== src/Serving/Plan/Tests.antt =====
-- Plans for a host with two gpus, and what the theorems give for them.
use microtensor_subnet.Base.{
  ℕ, ◌≡◌, refl, sym, ◌⊎◌, String, true, [], ◌∷◌, All, Any, inl, inr, if◌then◌else◌, map, contains,
  eq_iff,
}
use microtensor_subnet.Base.Dict.{has, get_or}
use microtensor_subnet.Serving.Hardware.{class_of}
use microtensor_subnet.Serving.Plan.{Holding, Offer, is_general, moved_past_pin}
use microtensor_subnet.Serving.Plan.Assign.{assign}
use microtensor_subnet.Serving.Plan.Build.{
  verdict_of, usable_of, plan_of, build, wanted_of, changed,
}
use microtensor_subnet.Serving.Plan.Answered.{build_answers}
use microtensor_subnet.Serving.Plan.Holdable.{build-IsHoldable}
use microtensor_subnet.Serving.Plan.Verdicts.{IsHoldable}
use microtensor_subnet.Serving.Plan.Placed.{gpus-build, gpus_for, build_preferred}
use microtensor_subnet.Serving.Plan.Samples.{
  thousandths, offer, rows, capacity, policy, as_is, pins, preferences, nothing_held,
}

program : Unit {0}
unfolding build plan_of assign verdict_of usable_of class_of wanted_of changed
program = tt

class_of_24 : class_of thousandths 24000 ≡ "gpu_24gb"
unfolding program
class_of_24 = refl

abbrev general_on : String → Holding
general_on gpu = record {
  model = "gen";
  artifact_digest = "abcdef0123";
  gpu = gpu;
  concurrency = 4;
  kind = "general";
}

abbrev system_on : String → Holding
system_on gpu = record {
  model = "sys";
  artifact_digest = "abcdef0123";
  gpu = gpu;
  concurrency = 1;
  kind = "certified";
}

-- The preferred model is on gpu 0, and on gpu 1 the one that is wanted most of those that fit.
hold-build :
    (build thousandths as_is rows capacity nothing_held policy pins preferences).hold
    ≡ general_on "0" ∷ system_on "1" ∷ []
unfolding program
hold-build = refl

reasons-build :
    (build thousandths as_is rows capacity nothing_held policy pins preferences).reasons
    ≡ ("big", moved_past_pin) ∷ []
unfolding program
reasons-build = refl

-- What is held already and not wanted is dropped, and only what is not cached is fetched.
drop-build :
    (build thousandths as_is rows capacity
      (("0", ("sys", "abcdef0123")) ∷ ("9", ("old", "d")) ∷ [])
      policy
      pins
      preferences).drop
    ≡ "0" ∷ "9" ∷ []
unfolding program
drop-build = refl

build-IsHoldable_example :
    All
      (λ h.
        (o : Offer ℕ) × Any (λ row. row ≡ o) rows
        × IsHoldable thousandths as_is capacity policy pins o
        × (h.model ≡ o.model)
        × (h.artifact_digest ≡ o.artifact_digest)
        × (h.kind ≡ o.kind)
        × (h.concurrency ≡ (if is_general o then o.concurrency else 1)))
      (build thousandths as_is rows capacity nothing_held policy pins preferences).hold
build-IsHoldable_example =
    build-IsHoldable thousandths as_is rows capacity nothing_held policy pins preferences

gpus-build_example :
    map
      (λ h. h.gpu)
      (build thousandths as_is rows capacity nothing_held policy pins preferences).hold
    ≡ gpus_for (usable_of (verdict_of thousandths as_is capacity policy pins) rows) capacity.gpus
gpus-build_example =
    gpus-build thousandths as_is rows capacity nothing_held policy pins preferences
      ((refl, tt), (tt, tt))

build_preferred_example : "gen" ≡ get_or "0" "" preferences
unfolding program
build_preferred_example =
    build_preferred thousandths as_is rows capacity nothing_held policy pins preferences
      (general_on "0") (inl refl) refl

build_answers_example :
    (contains "big" (
        map
          (λ h. h.model)
          (build thousandths as_is rows capacity nothing_held policy pins preferences).hold)
      ≡ true)
    ⊎ (has "big"
          (build thousandths as_is rows capacity nothing_held policy pins preferences).reasons
        ≡ true)
unfolding has
build_answers_example =
    build_answers thousandths as_is rows capacity nothing_held policy pins preferences
      (offer "big" "certified" 9000 80000) (inr (inr (inl refl)))
      (λ e. cc (sym ((eq_iff "big" "").1 e))) (λ e. cc (sym ((eq_iff "abcdef0123" "").1 e)))
      (inr refl)
