-- ===== src/Serving/Plan.antt =====
-- serving/plan.py: what an operator is offered, what its host can do, what its owner allows, and the
-- plan that comes out. `F` is the type of floating-point numbers.
pub mod Assign
pub mod Build
pub mod Verdicts
pub mod Holdable
pub mod Placed
pub mod Answered
pub mod Samples
pub mod Tests
use microtensor_subnet.Base.{
  ℕ, String, Bool, true, false, not, List, [], ◌∷◌, Option, none, some, Result, ok, raised, ◌&&◌,
  ◌||◌, ◌==◌, contains, if◌then◌else◌,
}
use microtensor_subnet.Base.Int.{ℤ}
use microtensor_subnet.Base.Dict.{Dict}
use microtensor_subnet.Base.Floats.{Floats}
use microtensor_subnet.Serving.Hardware.{class_of, satisfies}

pub data PlanError : Type 0 where
  no_gpu no_memory : PlanError

pub record Offer (F : Type 0) : Type 0 where
  pub model : String
  pub artifact_digest : String
  pub arena : String
  pub task : String
  pub hardware_class : String
  pub vram_gb : F
  pub ttft_ms : F
  pub tpot_ms : F
  pub servable : Bool
  pub wanted : F
  pub cold : Bool
  pub operators_online : ℤ
  pub requests : ℤ
  pub kind : String
  pub format : String
  pub engine : String
  pub context : ℤ
  pub concurrency : ℕ
  pub verifiable : Bool
  pub family : String
  pub licence : String
  pub licence_url : String

-- the property `general`
abbrev pub is_general : {F : Type 0} → Offer F → Bool
is_general o = o.kind == "general"

-- the property `serves_as`
abbrev pub serves_as : {F : Type 0} → Offer F → String
serves_as o = if is_general o then "model" else "system"

pub record Capacity (F : Type 0) : Type 0 where
  pub gpus : List String
  pub gpu_gb : F
  pub hardware_class : String
  pub images : List String

-- `bool` of a set
abbrev pub filled : List String → Bool
filled [] = false
filled (x ∷ xs) = true

-- `Capacity.__post_init__`
unfoldable pub checked_capacity :
    {F : Type 0} → Floats F → Capacity F → Result PlanError (Capacity F)
unfolding class_of
checked_capacity f c =
    if not (filled c.gpus)
    then raised no_gpu
    else (if f.le c.gpu_gb (f.of_ℕ 0)
        then raised no_memory
        else (if c.hardware_class == ""
            then ok (record c { hardware_class = class_of f c.gpu_gb })
            else ok c))

pub record Policy : Type 0 where
  pub arenas : List String
  pub exclude : List String
  pub kinds : List String
  pub include : List String
  pub families : List String
  pub accept_licences : Bool

-- `Policy.allows`
unfoldable pub allows : {F : Type 0} → Policy → Offer F → Bool
allows p o =
    if contains o.model p.exclude
    then false
    else (if filled p.include && not (contains o.model p.include)
        then false
        else (if filled p.kinds && not (contains (serves_as o) p.kinds)
            then false
            else (if is_general o
                then not (filled p.families && not (contains o.family p.families))
                else not (filled p.arenas && not (contains o.arena p.arenas)))))

-- Why an offer is not held: the texts of `reasons`, each with what it tells of the offer.
pub data Reason (F : Type 0) : Type 0 where
  moved_past_pin no_envelope excluded all_held : Reason F
  licence_not_accepted : String → String → Reason F
  no_engine : String → Reason F
  no_image : String → Reason F
  wrong_class : String → String → Reason F
  too_little_memory : F → F → Reason F

-- `unrunnable`, where `none` is the empty text
unfoldable pub unrunnable : {F : Type 0} → Offer F → Capacity F → Option (Reason F)
unfolding satisfies
unrunnable o c =
    if not (is_general o)
    then none
    else (if o.engine == ""
        then some (no_engine o.format)
        else (if not (contains o.engine c.images)
            then some (no_image o.engine)
            else (if not (satisfies c.hardware_class o.hardware_class)
                then some (wrong_class o.hardware_class c.hardware_class)
                else none)))

pub record Holding : Type 0 where
  pub model : String
  pub artifact_digest : String
  pub gpu : String
  pub concurrency : ℕ
  pub kind : String

pub record Plan (F : Type 0) : Type 0 where
  pub hold : List Holding
  pub fetch : List (Offer F)
  pub drop : List String
  pub skipped : List String
  pub reasons : Dict (Reason F)
