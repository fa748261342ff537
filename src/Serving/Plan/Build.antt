-- ===== src/Serving/Plan/Build.antt =====
-- serving/plan.py, `pin_matches`, `build`, `wanted_of` and `changed`: which offers are usable, and
-- the plan that is made of them. The rows are offers already; `lower` is `str.lower`.
use Prim.Native.String.{count}
use text.Mathlib.Text.{starts_with}
use microtensor_subnet.Base.{
  String, Bool, true, false, not, List, [], ◌∷◌, Option, none, some, ltb, eqb, ◌&&◌, ◌||◌, ◌==◌,
  map, keep, any, contains, length, text_le, if◌then◌else◌,
}
use microtensor_subnet.Base.Dict.{Dict, get, put, has, keys}
use microtensor_subnet.Base.Sorting.{sort}
use microtensor_subnet.Base.Floats.{Floats}
use microtensor_subnet.Serving.Plan.{
  Offer, is_general, Capacity, Policy, allows, Reason, moved_past_pin, no_envelope, excluded,
  all_held, licence_not_accepted, too_little_memory, unrunnable, Holding, Plan,
}
use microtensor_subnet.Serving.Plan.Assign.{Held, assign}

-- What the loop over the rows does with an offer.
pub data Verdict (F : Type 0) : Type 0 where
  passed_over : Verdict F
  refused : Reason F → Verdict F
  usable : Verdict F

-- (a, b) == (c, d)
abbrev pub same_pair : String × String → String × String → Bool
same_pair (a, b) (c, d) = a == c && b == d

-- d.get(k) == pair
abbrev pub is_pair : Option (String × String) → String × String → Bool
is_pair none pair = false
is_pair (some held) pair = same_pair held pair

-- `pin_matches`
unfoldable pub pin_matches : (String → String) → Option String → String → Bool
pin_matches lower none digest = false
pin_matches lower (some pin) digest =
    if pin == "" || ltb (count pin) 7 then false else starts_with (lower digest) (lower pin)

module _ {F : Type 0} where
  -- pinned is not None and not pin_matches(pinned.get(model), digest)
  abbrev pub off_pin : (String → String) → Option (Dict String) → Offer F → Bool
  off_pin lower none o = false
  off_pin lower (some pins) o = not (pin_matches lower (get o.model pins) o.artifact_digest)

  -- model in pinned
  abbrev pub is_pinned : Option (Dict String) → Offer F → Bool
  is_pinned none o = false
  is_pinned (some pins) o = has o.model pins

  -- usable.append(offer)
  abbrev pub then_usable : Offer F → Verdict F → List (Offer F) → List (Offer F)
  then_usable o usable rest = o ∷ rest
  then_usable o passed_over rest = rest
  then_usable o (refused reason) rest = rest

  -- reasons[offer.model] = ...
  abbrev pub noted : Offer F → Verdict F → Dict (Reason F) → Dict (Reason F)
  noted o usable reasons = reasons
  noted o passed_over reasons = reasons
  noted o (refused reason) reasons = put o.model reason reasons

  -- The loop over the rows, by its two results.
  unfoldable pub usable_of : (Offer F → Verdict F) → List (Offer F) → List (Offer F)
  usable_of verdict [] = []
  usable_of verdict (o ∷ rows) = then_usable o (verdict o) (usable_of verdict rows)

  unfoldable pub reasons_of :
      (Offer F → Verdict F) → List (Offer F) → Dict (Reason F) → Dict (Reason F)
  unfolding put
  reasons_of verdict [] reasons = reasons
  reasons_of verdict (o ∷ rows) reasons = reasons_of verdict rows (noted o (verdict o) reasons)

  -- {offer.model for offer in assigned.values()}
  abbrev pub placed_in : Dict (Offer F) → List String
  placed_in assigned = map (λ e. e.1.model) assigned

  -- reasons.setdefault(model, ...) for each usable offer that has no gpu
  unfoldable pub with_waiting : List String → List (Offer F) → Dict (Reason F) → Dict (Reason F)
  unfolding put has
  with_waiting placed [] reasons = reasons
  with_waiting placed (o ∷ offers) reasons = with_waiting placed offers (
      if contains o.model placed || has o.model reasons
      then reasons
      else put o.model all_held reasons)

  abbrev pub holding_of : String → Offer F → Holding
  holding_of gpu o = record {
    model = o.model;
    artifact_digest = o.artifact_digest;
    gpu = gpu;
    concurrency = if is_general o then o.concurrency else 1;
    kind = o.kind;
  }

  -- the loop that fills `fetch`
  unfoldable pub fetch_from : List (String × String) → List String → List (Offer F) → List (Offer F)
  fetch_from cached names [] = []
  fetch_from cached names (o ∷ offers) =
      let known : Bool =
        contains o.model names
        || any (λ pair. same_pair pair (o.model, o.artifact_digest)) cached in
      let rest = fetch_from cached (if known then names else o.model ∷ names) offers in
      if known then rest else o ∷ rest

  -- wanted_now.get(gpu)
  abbrev pub pair_of : Option (Offer F) → Option (String × String)
  pair_of none = none
  pair_of (some o) = some (o.model, o.artifact_digest)

  -- the gpus whose pair is not wanted now
  abbrev pub stale : Dict (Offer F) → Held → Held
  stale assigned holding = keep (λ e. not (is_pair (pair_of (get e.0 assigned)) e.1)) holding

  -- What `build` makes of the places of the usable offers.
  unfoldable pub plan_of : Dict (Offer F) → Held → Dict (Reason F) → Plan F
  unfolding fetch_from sort text_le get
  plan_of assigned holding reasons = record {
    hold = map (λ e. holding_of e.0 e.1) assigned;
    fetch = fetch_from (map (λ e. e.1) holding) [] (map (λ e. e.1) assigned);
    drop = sort text_le (keys (stale assigned holding));
    skipped = sort text_le (keys reasons);
    reasons = reasons;
  }

module _ {F : Type 0} (f : Floats F) (lower : String → String) where
  -- the checks from `unrunnable` on
  unfoldable pub verdict_of_host : Capacity F → Offer F → Option (Reason F) → Verdict F
  verdict_of_host capacity o (some blocked) = refused blocked
  verdict_of_host capacity o none =
      if f.lt capacity.gpu_gb o.vram_gb
      then refused (too_little_memory o.vram_gb capacity.gpu_gb)
      else usable

  -- the checks on one row
  unfoldable pub verdict_of : Capacity F → Policy → Option (Dict String) → Offer F → Verdict F
  unfolding verdict_of_host pin_matches allows unrunnable get has
  verdict_of capacity rules pinned o =
      if o.model == "" || o.artifact_digest == ""
      then passed_over
      else (if off_pin lower pinned o
          then (if is_pinned pinned o then refused moved_past_pin else passed_over)
          else (if not o.servable
              then refused no_envelope
              else (if not (allows rules o)
                  then refused excluded
                  else (if is_general o && not rules.accept_licences
                      then refused (licence_not_accepted o.licence o.licence_url)
                      else verdict_of_host capacity o (unrunnable o capacity)))))

  -- `build`
  unfoldable pub build :
      List (Offer F) → Capacity F → Held → Policy → Option (Dict String) → Dict String → Plan F
  unfolding verdict_of usable_of reasons_of with_waiting assign plan_of
  build rows capacity holding rules pinned preferred =
      let offers : List (Offer F) = usable_of (verdict_of capacity rules pinned) rows in
      let assigned : Dict (Offer F) = assign f offers capacity.gpus holding preferred in
      plan_of assigned holding (
        with_waiting (placed_in assigned) offers
          (reasons_of (verdict_of capacity rules pinned) rows []))

abbrev pub wanted_from : Held → List Holding → Held
wanted_from wanted [] = wanted
wanted_from wanted (h ∷ hold) = wanted_from (put h.gpu (h.model, h.artifact_digest) wanted) hold

-- `wanted_of`
unfoldable pub wanted_of : List Holding → Held
unfolding put
wanted_of hold = wanted_from [] hold

-- each entry of the dict has the same value in the other
abbrev pub within : Held → Held → Bool
within [] other = true
within ((gpu, pair) ∷ d) other = is_pair (get gpu other) pair && within d other

-- `changed`
unfoldable pub changed : List Holding → Held → Bool
unfolding wanted_of get
changed hold holding =
    not (within (wanted_of hold) holding && eqb (length (wanted_of hold)) (length holding))
