-- ===== src/Serving/Plan/Verdicts.antt =====
-- serving/plan.py: what an offer that passes the checks of `build` is known to be.
use Prim.Native.String.{count}
use text.Mathlib.Text.{starts_with}
use microtensor_subnet.Base.{
  ◌≤◌, ◌≡◌, refl, ◌≢◌, ◌⊎◌, inl, inr, String, Bool, true, false, not, List, [], ◌∷◌, Option, none,
  some, ◌&&◌, ◌||◌, ◌==◌, contains, if◌then◌else◌, arith, eq_iff,
}
use microtensor_subnet.Base.Dict.{Dict, get}
use microtensor_subnet.Base.Floats.{Floats}
use microtensor_subnet.Serving.Hardware.{satisfies}
use microtensor_subnet.Serving.Plan.{
  Offer, is_general, serves_as, Capacity, filled, Policy, allows, Reason, unrunnable,
}
use microtensor_subnet.Serving.Plan.Build.{
  usable, pin_matches, off_pin, verdict_of_host, verdict_of,
}

-- A set of names that restricts only if it is not empty has the name.
abbrev pub IsOpenTo : String → List String → Type 0
IsOpenTo name names = (names ≡ []) ⊎ (contains name names ≡ true)

-- The owner asked for no pins, or for this one: at least seven characters, with which the digest starts.
abbrev pub MatchesPin : {F : Type 0} → (String → String) → Option (Dict String) → Offer F → Type 0
MatchesPin lower none o = Unit
MatchesPin lower (some pins) o =
    (pin : String) × (get o.model pins ≡ some pin)
    × (7 ≤ count pin)
    × (starts_with (lower o.artifact_digest) (lower pin) ≡ true)

pub record IsAllowed {F : Type 0} (p : Policy) (o : Offer F) : Type 0 where
  pub not_excluded : contains o.model p.exclude ≡ false
  pub included : IsOpenTo o.model p.include
  pub kind_open : IsOpenTo (serves_as o) p.kinds
  pub family_open : is_general o ≡ true → IsOpenTo o.family p.families
  pub arena_open : is_general o ≡ false → IsOpenTo o.arena p.arenas

pub record IsRunnable {F : Type 0} (c : Capacity F) (o : Offer F) : Type 0 where
  pub has_engine : is_general o ≡ true → (o.engine == "") ≡ false
  pub has_image : is_general o ≡ true → contains o.engine c.images ≡ true
  pub has_class : is_general o ≡ true → satisfies c.hardware_class o.hardware_class ≡ true

-- What a chain of tests gives is not what its first test would have given.
pub later :
    {A : Type 0} (test : Bool) {early rest answer : A}
    → early ≢ answer
    → (if test then early else rest) ≡ answer
    → (test ≡ false) × (rest ≡ answer)
later true h e = absurd (h e)
later false h e = (refl, e)

not-eq_false : (b : Bool) → not b ≡ false → b ≡ true
not-eq_false true e = refl
not-eq_false false e = cc

clash : (a b : Bool) → (a || b) ≡ false → a ≢ true
clash a b h e = ground arith

clash_right : (a b : Bool) → (a || b) ≡ false → b ≢ true
clash_right a b h e = ground arith

licence_given : (a b : Bool) → (a && not b) ≡ false → a ≡ true → b ≡ true
licence_given a b h g = ground arith

closed-IsOpenTo :
    (name : String) (names : List String)
    → (filled names && not (contains name names)) ≡ false
    → IsOpenTo name names
closed-IsOpenTo name [] h = inl refl
closed-IsOpenTo name (x ∷ xs) h = inr (not-eq_false (contains name (x ∷ xs)) h)

module _ {F : Type 0} where
  allows-IsAllowed : (p : Policy) (o : Offer F) → allows p o ≡ true → IsAllowed p o
  unfolding allows
  allows-IsAllowed p o h = record {
    not_excluded = ground arith;
    included = closed-IsOpenTo o.model p.include (ground arith);
    kind_open = closed-IsOpenTo (serves_as o) p.kinds (ground arith);
    family_open = λ g. closed-IsOpenTo o.family p.families (ground arith);
    arena_open = λ g. closed-IsOpenTo o.arena p.arenas (ground arith);
  }

  unrunnable-IsRunnable : (c : Capacity F) (o : Offer F) → unrunnable o c ≡ none → IsRunnable c o
  unfolding unrunnable
  unrunnable-IsRunnable c o h = record {
    has_engine = λ g. ground arith;
    has_image = λ g. ground arith;
    has_class = λ g. ground arith;
  }

pub record IsHoldable {F : Type 0} (f : Floats F) (lower : String → String) (c : Capacity F)
    (p : Policy) (pinned : Option (Dict String)) (o : Offer F) : Type 0 where
  pub named : o.model ≢ ""
  pub digested : o.artifact_digest ≢ ""
  pub pin : MatchesPin lower pinned o
  pub published : o.servable ≡ true
  pub allowed : IsAllowed p o
  pub licensed : is_general o ≡ true → p.accept_licences ≡ true
  pub runnable : IsRunnable c o
  pub fits : f.lt c.gpu_gb o.vram_gb ≡ false

pin_matches-MatchesPin :
    {F : Type 0} (lower : String → String) (pinned : Option (Dict String)) (o : Offer F)
    → off_pin lower pinned o ≡ false
    → MatchesPin lower pinned o
pin_matches-MatchesPin lower none o h = tt
pin_matches-MatchesPin lower (some pins) o h = by_pin (get o.model pins) refl h
  where
    by_pin :
        (found : Option String)
        → get o.model pins ≡ found
        → not (pin_matches lower found o.artifact_digest) ≡ false
        → MatchesPin lower (some pins) o
    by_pin none e k = absurd (unfold pin_matches in cc)
    by_pin (some pin) e k =
        (pin, e, unfold pin_matches in ground arith, unfold pin_matches in ground arith)

module _ {F : Type 0} (f : Floats F) (lower : String → String) (c : Capacity F) (p : Policy) where
  verdict_of_host-usable :
      (o : Offer F) (blocked : Option (Reason F))
      → verdict_of_host f lower c o blocked ≡ usable
      → (blocked ≡ none) × (f.lt c.gpu_gb o.vram_gb ≡ false)
  unfolding verdict_of_host
  verdict_of_host-usable o none h = (refl, ground arith)
  verdict_of_host-usable o (some reason) h = absurd (cc)

  pub verdict_of-IsHoldable :
      (pinned : Option (Dict String)) (o : Offer F)
      → verdict_of f lower c p pinned o ≡ usable
      → IsHoldable f lower c p pinned o
  unfolding verdict_of
  verdict_of-IsHoldable pinned o h =
      let (filled_in, h1) = later (o.model == "" || o.artifact_digest == "") (λ e. cc) h in
      let (pin_met, h2) = later (off_pin lower pinned o) (λ e. ground arith) h1 in
      let (servable, h3) = later (not o.servable) (λ e. cc) h2 in
      let (allowing, h4) = later (not (allows p o)) (λ e. cc) h3 in
      let (licence_met, h5) = later (is_general o && not p.accept_licences) (λ e. cc) h4 in
      let (on_host, fitting) = verdict_of_host-usable o (unrunnable o c) h5 in
      record {
        named = λ e. clash _ _ filled_in ((eq_iff o.model "").1 e);
        digested = λ e. clash_right _ _ filled_in ((eq_iff o.artifact_digest "").1 e);
        pin = pin_matches-MatchesPin lower pinned o pin_met;
        published = not-eq_false o.servable servable;
        allowed = allows-IsAllowed p o (not-eq_false (allows p o) allowing);
        licensed = λ g. licence_given (is_general o) p.accept_licences licence_met g;
        runnable = unrunnable-IsRunnable c o on_host;
        fits = fitting;
      }
