-- ===== src/Serving/Plan/Holdable.antt =====
-- serving/plan.py: what is placed on a gpu is an offer that the host can hold and its owner allows.
use microtensor_subnet.Base.{
  ℕ, ◌≡◌, refl, inl, inr, String, Bool, List, [], ◌∷◌, Option, ◌==◌, if◌then◌else◌, eq_iff, All,
  Any, Bool-cases, subst, sym, map,
}
use microtensor_subnet.Base.Dict.{Dict, get, get_or, put, add_at}
use microtensor_subnet.Base.Floats.{Floats}
use microtensor_subnet.Serving.Plan.{Offer, is_general, Capacity, Policy}
use microtensor_subnet.Serving.Plan.Assign.{Held, before, least, chosen_for, assign_from, assign}
use microtensor_subnet.Serving.Plan.Build.{
  Verdict, usable, passed_over, refused, verdict_of, usable_of, then_usable, plan_of, holding_of,
  build,
}
use microtensor_subnet.Serving.Plan.Verdicts.{IsHoldable, verdict_of-IsHoldable}

usable_of-All :
    {F : Type 0} (P : Offer F → Type 0) (verdict : Offer F → Verdict F) (rows : List (Offer F))
    → All (λ o. verdict o ≡ usable → P o) rows
    → All P (usable_of verdict rows)
unfolding usable_of
usable_of-All P verdict [] h = tt
usable_of-All {F} P verdict (o ∷ rows) (this, others) =
    by_verdict (usable_of-All P verdict rows others) (verdict o) refl
  where
    by_verdict :
        All P (usable_of verdict rows)
        → (v : Verdict F) → verdict o ≡ v
        → All P (then_usable o v (usable_of verdict rows))
    by_verdict rest usable e = (this e, rest)
    by_verdict rest passed_over e = rest
    by_verdict rest (refused reason) e = rest

-- Each element is one of the list.
All-own : {A : Type 0} (xs : List A) → All (λ x. Any (λ y. y ≡ x) xs) xs
All-own {A} xs = deeper xs (λ x h. h)
  where
    deeper :
        (ys : List A)
        → ((x : A) → Any (λ y. y ≡ x) ys → Any (λ y. y ≡ x) xs)
        → All (λ x. Any (λ y. y ≡ x) xs) ys
    deeper [] up = tt
    deeper (y ∷ ys) up = (up y (inl refl), deeper ys (λ x h. up x (inr h)))

All-map :
    {A : Type 0} (P Q : A → Type 0) (xs : List A) → ((x : A) → P x → Q x) → All P xs → All Q xs
All-map P Q [] f h = tt
All-map P Q (x ∷ xs) f (px, h) = (f x px, All-map P Q xs f h)

least-All :
    {F : Type 0} (P : Offer F → Type 0) (less : Offer F → Offer F → Bool) (best : Offer F)
    (offers : List (Offer F))
    → P best
    → All P offers
    → P (least less best offers)
unfolding least
least-All P less best [] h hs = h
least-All P less best (o ∷ offers) h (this, others) = elim (Bool-cases (less o best)) [
  | inl e ↦ rw (e, if◌then◌else◌) (least-All P less o offers this others)
  | inr e ↦ rw (e, if◌then◌else◌) (least-All P less best offers h others)
]

module _ {F : Type 0} (P : String → Offer F → Type 0) where
  put-All :
      (gpu : String) (o : Offer F) (d : Dict (Offer F))
      → P gpu o
      → All (λ e. P e.0 e.1) d
      → All (λ e. P e.0 e.1) (put gpu o d)
  unfolding put
  put-All gpu o [] h hs = (h, tt)
  put-All gpu o ((other, held) ∷ d) h (this, others) = elim (Bool-cases (other == gpu)) [
    | inl e ↦ rw (e, if◌then◌else◌) (subst (λ k. P k o) (sym ((eq_iff other gpu).0 e)) h, others)
    | inr e ↦ rw (e, if◌then◌else◌) (this, put-All gpu o d h others)
  ]

  -- What holds of each choice holds of all places.
  pub assign_from-All :
      (f : Floats F) (first : Offer F) (offers : List (Offer F)) (holding : Held)
      (wished : Dict String) (counts : Dict ℕ) (assigned : Dict (Offer F)) (gpus : List String)
      → ((counts' : Dict ℕ) (gpu : String)
          → P gpu (chosen_for f first offers holding wished counts' gpu))
      → All (λ e. P e.0 e.1) assigned
      → All (λ e. P e.0 e.1) (assign_from f first offers holding wished counts assigned gpus)
  unfolding assign_from
  assign_from-All f first offers holding wished counts assigned [] choice h = h
  assign_from-All f first offers holding wished counts assigned (gpu ∷ gpus) choice h =
      let o : Offer F = chosen_for f first offers holding wished counts gpu in
      assign_from-All f first offers holding wished (add_at o.model 1 counts) (put gpu o assigned)
        gpus choice (put-All gpu o assigned (choice counts gpu) h)

assign-All :
    {F : Type 0} (P : Offer F → Type 0) (f : Floats F) (offers : List (Offer F))
    (gpus : List String) (holding : Held) (preferred : Dict String)
    → All P offers
    → All (λ e. P e.1) (assign f offers gpus holding preferred)
unfolding assign
assign-All P f [] gpus holding preferred h = tt
assign-All P f (first ∷ others) gpus holding preferred (this, rest) =
    assign_from-All (λ gpu o. P o) f first others holding preferred [] [] gpus
      (λ counts gpu.
        unfold chosen_for in
        least-All P (before f counts (get gpu holding) (get_or gpu "" preferred)) first others this
          rest)
      tt

-- Each holding of a plan is of an offer of the catalogue that can be held here: it is named, matches the
-- pin if pins are given, is servable, is allowed by the policy and fits the memory; and if it is general,
-- licences are accepted, and it has an engine with an image and a host of its class. The holding has the
-- model, the digest and the kind of the offer, and its concurrency if it is general, and one otherwise.
pub build-IsHoldable :
    {F : Type 0} (f : Floats F) (lower : String → String) (rows : List (Offer F)) (c : Capacity F)
    (holding : Held) (p : Policy) (pinned : Option (Dict String)) (preferred : Dict String)
    → All
        (λ h.
          (o : Offer F) × Any (λ row. row ≡ o) rows
          × IsHoldable f lower c p pinned o
          × (h.model ≡ o.model)
          × (h.artifact_digest ≡ o.artifact_digest)
          × (h.kind ≡ o.kind)
          × (h.concurrency ≡ (if is_general o then o.concurrency else 1)))
        (build f lower rows c holding p pinned preferred).hold
unfolding build plan_of
build-IsHoldable {F} f lower rows c holding p pinned preferred =
    All-hold (assign f offers c.gpus holding preferred) (
      assign-All P f offers c.gpus holding preferred (
        usable_of-All P (verdict_of f lower c p pinned) rows (
          All-map (λ o. Any (λ row. row ≡ o) rows)
            (λ o. verdict_of f lower c p pinned o ≡ usable → P o) rows
            (λ o of_rows e. (of_rows, verdict_of-IsHoldable f lower c p pinned o e))
            (All-own rows))))
  where
    P : Offer F → Type 0
    P o = Any (λ row. row ≡ o) rows × IsHoldable f lower c p pinned o

    offers : List (Offer F)
    offers = usable_of (verdict_of f lower c p pinned) rows

    All-hold :
        (assigned : Dict (Offer F))
        → All (λ e. P e.1) assigned
        → All
            (λ h.
              (o : Offer F) × Any (λ row. row ≡ o) rows
              × IsHoldable f lower c p pinned o
              × (h.model ≡ o.model)
              × (h.artifact_digest ≡ o.artifact_digest)
              × (h.kind ≡ o.kind)
              × (h.concurrency ≡ (if is_general o then o.concurrency else 1)))
            (map (λ e. holding_of e.0 e.1) assigned)
    All-hold [] h = tt
    All-hold ((gpu, o) ∷ assigned) ((of_rows, holdable), h) =
        ((o, of_rows, holdable, refl, refl, refl, refl), All-hold assigned h)
