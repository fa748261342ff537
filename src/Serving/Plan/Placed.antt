-- ===== src/Serving/Plan/Placed.antt =====
-- serving/plan.py: where the offers are placed, and which of them are not.
use mathlib.Core.List.{append-nil}
use microtensor_subnet.Base.{
  ℕ, ◌≡◌, refl, sym, ap, ◌∙◌, inl, inr, String, Bool, true, false, List, [], ◌∷◌, ◌++◌, Option,
  ◌||◌, ◌==◌, any, if◌then◌else◌, arith, eq_iff, All, Any, map, subst,
}
use microtensor_subnet.Base.Dict.{Dict, get, get_or, put, add_at, keys, Lacks}
use microtensor_subnet.Base.Floats.{Floats}
use microtensor_subnet.Serving.Plan.{Offer, Capacity, Policy, Holding}
use microtensor_subnet.Serving.Plan.Assign.{
  Held, by_ℕ, zero_if, wishes, before, least, chosen_for, assign_from, assign,
}
use microtensor_subnet.Serving.Plan.Build.{verdict_of, usable_of, plan_of, holding_of, build}
use microtensor_subnet.Serving.Plan.Holdable.{assign_from-All}

-- No name stands twice.
abbrev pub IsNodup : List String → Type 0
IsNodup [] = Unit
IsNodup (x ∷ xs) = All (λ y. (x == y) ≡ false) xs × IsNodup xs

module _ {F : Type 0} where
  put-Lacks :
      (gpu : String) (o : Offer F) (d : Dict (Offer F))
      → Lacks gpu d
      → put gpu o d ≡ d ++ (gpu, o) ∷ []
  unfolding put
  put-Lacks gpu o [] h = refl
  put-Lacks gpu o ((other, held) ∷ d) (ne, h) =
      rw (ne, if◌then◌else◌) (ap (λ rest. (other, held) ∷ rest) (put-Lacks gpu o d h))

  Lacks-snoc :
      (k gpu : String) (o : Offer F) (d : Dict (Offer F))
      → Lacks k d
      → (gpu == k) ≡ false
      → Lacks k (d ++ (gpu, o) ∷ [])
  Lacks-snoc k gpu o [] h ne = (ne, tt)
  Lacks-snoc k gpu o (e ∷ d) (this, h) ne = (this, Lacks-snoc k gpu o d h ne)

  All-Lacks-snoc :
      (gpu : String) (o : Offer F) (d : Dict (Offer F)) (gpus : List String)
      → All (λ k. Lacks k d) gpus
      → All (λ k. (gpu == k) ≡ false) gpus
      → All (λ k. Lacks k (d ++ (gpu, o) ∷ [])) gpus
  All-Lacks-snoc gpu o d [] h ne = tt
  All-Lacks-snoc gpu o d (k ∷ gpus) (this, h) (ne, nes) =
      (Lacks-snoc k gpu o d this ne, All-Lacks-snoc gpu o d gpus h nes)

  keys-snoc :
      (gpu : String) (o : Offer F) (d : Dict (Offer F)) (gpus : List String)
      → keys (d ++ (gpu, o) ∷ []) ++ gpus ≡ keys d ++ gpu ∷ gpus
  keys-snoc gpu o [] gpus = refl
  keys-snoc gpu o (e ∷ d) gpus = ap (λ rest. e.0 ∷ rest) (keys-snoc gpu o d gpus)

  keys-assign_from :
      (f : Floats F) (first : Offer F) (offers : List (Offer F)) (holding : Held)
      (wished : Dict String) (counts : Dict ℕ) (assigned : Dict (Offer F)) (gpus : List String)
      → All (λ k. Lacks k assigned) gpus
      → IsNodup gpus
      → keys (assign_from f first offers holding wished counts assigned gpus)
        ≡ keys assigned ++ gpus
  unfolding assign_from
  keys-assign_from f first offers holding wished counts assigned [] h once = sym (append-nil _)
  keys-assign_from f first offers holding wished counts assigned (gpu ∷ gpus) (this, h)
        (fresh, once) =
      let o : Offer F = chosen_for f first offers holding wished counts gpu in
      rw (put-Lacks gpu o assigned this) (
        keys-assign_from f first offers holding wished (add_at o.model 1 counts)
          (assigned ++ (gpu, o) ∷ []) gpus (All-Lacks-snoc gpu o assigned gpus h fresh) once
        ∙ keys-snoc gpu o assigned gpus)

Lacks-nil : (A : Type 0) (gpus : List String) → All (λ k. Lacks {V = A} k []) gpus
Lacks-nil A [] = tt
Lacks-nil A (gpu ∷ gpus) = (tt, Lacks-nil A gpus)

abbrev pub gpus_for : {A : Type 0} → List A → List String → List String
gpus_for [] gpus = []
gpus_for (x ∷ xs) gpus = gpus

pub keys-assign :
    {F : Type 0} (f : Floats F) (offers : List (Offer F)) (holding : Held) (preferred : Dict String)
    (gpus : List String)
    → IsNodup gpus
    → keys (assign f offers gpus holding preferred) ≡ gpus_for offers gpus
unfolding assign
keys-assign f [] holding preferred gpus once = refl
keys-assign {F} f (first ∷ others) holding preferred gpus once =
    keys-assign_from f first others holding preferred [] [] gpus (Lacks-nil (Offer F) gpus) once

pub gpus-holding :
    {F : Type 0} (assigned : Dict (Offer F))
    → map (λ h. h.gpu) (map (λ e. holding_of e.0 e.1) assigned) ≡ keys assigned
gpus-holding [] = refl
gpus-holding (e ∷ assigned) = ap (λ rest. e.0 ∷ rest) (gpus-holding assigned)

-- If no gpu of the host is listed twice, a plan holds something on each of them, once and in their
-- order, as soon as one offer is usable, and holds nothing otherwise.
pub gpus-build :
    {F : Type 0} (f : Floats F) (lower : String → String) (rows : List (Offer F)) (c : Capacity F)
    (holding : Held) (p : Policy) (pinned : Option (Dict String)) (preferred : Dict String)
    → IsNodup c.gpus
    → map (λ h. h.gpu) (build f lower rows c holding p pinned preferred).hold
      ≡ gpus_for (usable_of (verdict_of f lower c p pinned) rows) c.gpus
unfolding build plan_of
gpus-build f lower rows c holding p pinned preferred once =
    gpus-holding _
    ∙ keys-assign f (usable_of (verdict_of f lower c p pinned) rows) holding preferred c.gpus once

-- What holds of all holds of each.
pub All-Any :
    {A : Type 0} (P : A → Type 0) (xs : List A) {x : A} → All P xs → Any (λ y. y ≡ x) xs → P x
All-Any P [] h here = elim here [ ]
All-Any P (y ∷ xs) (this, h) (inl e) = subst P e this
All-Any P (y ∷ xs) (this, h) (inr more) = All-Any P xs h more

-- The first place of the compared tuples decides, if the two differ there.
by_ℕ-first : (a b rest : Bool) → (if by_ℕ (zero_if a) (zero_if b) rest then a else b) ≡ (a || b)
by_ℕ-first true true true = refl
by_ℕ-first true true false = refl
by_ℕ-first true false rest = refl
by_ℕ-first false true rest = refl
by_ℕ-first false false true = refl
by_ℕ-first false false false = refl

wishes-if :
    {F : Type 0} (wish : String) (test : Bool) (a b : Offer F)
    → wishes wish (if test then a else b) ≡ (if test then wishes wish a else wishes wish b)
wishes-if wish true a b = refl
wishes-if wish false a b = refl

before-first :
    {F : Type 0} (f : Floats F) (counts : Dict ℕ) (current : Option (String × String))
    (wish : String) (a b : Offer F)
    → (if before f counts current wish a b then wishes wish a else wishes wish b)
      ≡ (wishes wish a || wishes wish b)
unfolding before
before-first f counts current wish a b = by_ℕ-first (wishes wish a) (wishes wish b) _

or_left : (a b rest : Bool) → (a || (b || rest)) ≡ ((b || a) || rest)
or_left a b rest = ground arith

wishes-least :
    {F : Type 0} (f : Floats F) (counts : Dict ℕ) (current : Option (String × String))
    (wish : String) (best : Offer F) (offers : List (Offer F))
    → wishes wish (least (before f counts current wish) best offers)
      ≡ (wishes wish best || any (wishes wish) offers)
unfolding least
wishes-least f counts current wish best [] = ground arith
wishes-least f counts current wish best (o ∷ offers) =
    wishes-least f counts current wish (if before f counts current wish o best then o else best)
      offers
    ∙ ap (λ (t : Bool). t || any (wishes wish) offers)
        (wishes-if wish (before f counts current wish o best) o best
          ∙ before-first f counts current wish o best)
    ∙ sym (or_left (wishes wish best) (wishes wish o) (any (wishes wish) offers))

-- A gpu for which the gateway prefers a model that is usable gets that model, whatever the demand for the
-- others is.
pub build_preferred :
    {F : Type 0} (f : Floats F) (lower : String → String) (rows : List (Offer F)) (c : Capacity F)
    (holding : Held) (p : Policy) (pinned : Option (Dict String)) (preferred : Dict String)
    (h : Holding)
    → Any (λ other. other ≡ h) (build f lower rows c holding p pinned preferred).hold
    → any (wishes (get_or h.gpu "" preferred)) (usable_of (verdict_of f lower c p pinned) rows)
      ≡ true
    → h.model ≡ get_or h.gpu "" preferred
unfolding build plan_of
build_preferred {F} f lower rows c holding p pinned preferred h held wished =
    All-Any
      (λ h.
        any (wishes (get_or h.gpu "" preferred)) offers ≡ true
        → h.model ≡ get_or h.gpu "" preferred)
      (map (λ e. holding_of e.0 e.1) (assign f offers c.gpus holding preferred))
      (each (assign f offers c.gpus holding preferred) (assign-wished offers)) held wished
  where
    offers : List (Offer F)
    offers = usable_of (verdict_of f lower c p pinned) rows

    P : List (Offer F) → String → Offer F → Type 0
    P among gpu o =
        any (wishes (get_or gpu "" preferred)) among ≡ true
        → wishes (get_or gpu "" preferred) o ≡ true

    assign-wished :
        (among : List (Offer F))
        → All (λ e. P among e.0 e.1) (assign f among c.gpus holding preferred)
    assign-wished [] = unfold assign in tt
    assign-wished (first ∷ others) =
        unfold assign in
        assign_from-All (P (first ∷ others)) f first others holding preferred [] [] c.gpus
          (λ counts gpu w.
            unfold chosen_for in
            wishes-least f counts (get gpu holding) (get_or gpu "" preferred) first others ∙ w)
          tt

    model_is : (wish : String) (o : Offer F) → wishes wish o ≡ true → o.model ≡ wish
    model_is wish o w = ground (arith, eq_iff o.model wish)

    each :
        (assigned : Dict (Offer F))
        → All (λ e. P offers e.0 e.1) assigned
        → All
            (λ h.
              any (wishes (get_or h.gpu "" preferred)) offers ≡ true
              → h.model ≡ get_or h.gpu "" preferred)
            (map (λ e. holding_of e.0 e.1) assigned)
    each [] q = tt
    each ((gpu, o) ∷ assigned) (this, q) =
        (λ w. model_is (get_or gpu "" preferred) o (this w), each assigned q)
