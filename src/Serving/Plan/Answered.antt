-- ===== src/Serving/Plan/Answered.antt =====
-- serving/plan.py, `reasons`: no offer that could be held is passed over in silence.
use microtensor_subnet.Base.{
  ◌≡◌, refl, sym, ap, ◌∙◌, ◌≢◌, ◌⊎◌, inl, inr, String, true, false, not, List, [], ◌∷◌, Option,
  none, some, ◌&&◌, ◌||◌, ◌==◌, contains, if◌then◌else◌, arith, eq_iff, All, Any, Bool-cases, map,
}
use microtensor_subnet.Base.Dict.{Dict, has, has-put}
use microtensor_subnet.Base.Floats.{Floats}
use microtensor_subnet.Serving.Plan.{
  Offer, is_general, Capacity, Policy, allows, Reason, moved_past_pin, no_envelope, excluded,
  licence_not_accepted, all_held, unrunnable,
}
use microtensor_subnet.Serving.Plan.Assign.{Held, assign}
use microtensor_subnet.Serving.Plan.Build.{
  Verdict, usable, passed_over, refused, is_pinned, off_pin, verdict_of, verdict_of_host, usable_of,
  then_usable, reasons_of, noted, placed_in, with_waiting, plan_of, holding_of, build,
}
use microtensor_subnet.Serving.Plan.Verdicts.{later}
use microtensor_subnet.Serving.Plan.Placed.{All-Any}

module _ {F : Type 0} where
  has-noted :
      (k : String) (o : Offer F) (v : Verdict F) (reasons : Dict (Reason F))
      → has k reasons ≡ true
      → has k (noted o v reasons) ≡ true
  has-noted k o usable reasons h = h
  has-noted k o passed_over reasons h = h
  has-noted k o (refused reason) reasons h = ground (arith, has-put o.model k reason reasons)

  -- A reason is not taken back.
  has-reasons_of :
      (k : String) (verdict : Offer F → Verdict F) (rows : List (Offer F))
      (reasons : Dict (Reason F))
      → has k reasons ≡ true
      → has k (reasons_of verdict rows reasons) ≡ true
  unfolding reasons_of
  has-reasons_of k verdict [] reasons h = h
  has-reasons_of k verdict (o ∷ rows) reasons h =
      has-reasons_of k verdict rows (noted o (verdict o) reasons)
        (has-noted k o (verdict o) reasons h)

  refused-has :
      (verdict : Offer F → Verdict F) (rows : List (Offer F)) (reasons : Dict (Reason F))
      → All
          (λ o.
            (reason : Reason F)
            → verdict o ≡ refused reason
            → has o.model (reasons_of verdict rows reasons) ≡ true)
          rows
  unfolding reasons_of
  refused-has verdict [] reasons = tt
  refused-has verdict (o ∷ rows) reasons = (
    λ reason e.
        has-reasons_of o.model verdict rows (noted o (verdict o) reasons) (
          rw e
            (has-put o.model o.model reason reasons ∙ rw ((eq_iff o.model o.model).1 refl) refl)),
    refused-has verdict rows (noted o (verdict o) reasons),
  )

  has-with_waiting :
      (k : String) (placed : List String) (offers : List (Offer F)) (reasons : Dict (Reason F))
      → has k reasons ≡ true
      → has k (with_waiting placed offers reasons) ≡ true
  unfolding with_waiting
  has-with_waiting k placed [] reasons h = h
  has-with_waiting k placed (o ∷ offers) reasons h =
      has-with_waiting k placed offers _ (ground (arith, has-put o.model k all_held reasons))

  waiting-has :
      (placed : List String) (offers : List (Offer F)) (reasons : Dict (Reason F))
      → All
          (λ o.
            contains o.model placed ≡ false
            → has o.model (with_waiting placed offers reasons) ≡ true)
          offers
  unfolding with_waiting
  waiting-has placed [] reasons = tt
  waiting-has placed (o ∷ offers) reasons = (
    λ e.
        has-with_waiting o.model placed offers _
          (ground (arith, eq_iff o.model o.model, has-put o.model o.model all_held reasons)),
    waiting-has placed offers _,
  )

  All-usable_of :
      (P : Offer F → Type 0) (verdict : Offer F → Verdict F) (rows : List (Offer F))
      → All P (usable_of verdict rows)
      → All (λ o. verdict o ≡ usable → P o) rows
  unfolding usable_of
  All-usable_of P verdict [] h = tt
  All-usable_of P verdict (o ∷ rows) h =
      by_verdict (λ rest. All-usable_of P verdict rows rest) (verdict o) refl h
    where
      by_verdict :
          (All P (usable_of verdict rows) → All (λ r. verdict r ≡ usable → P r) rows)
          → (v : Verdict F) → verdict o ≡ v
          → All P (then_usable o v (usable_of verdict rows))
          → All (λ o. verdict o ≡ usable → P o) (o ∷ rows)
      by_verdict others usable e (this, h) = (λ _. this, others h)
      by_verdict others passed_over e h = (λ k. absurd (cc), others h)
      by_verdict others (refused reason) e h = (λ k. absurd (cc), others h)

  placed_in-models :
      (assigned : Dict (Offer F))
      → map (λ h. h.model) (map (λ e. holding_of e.0 e.1) assigned) ≡ placed_in assigned
  placed_in-models [] = refl
  placed_in-models (e ∷ assigned) = ap (λ rest. e.1.model ∷ rest) (placed_in-models assigned)

passed-over :
    {F : Type 0} (f : Floats F) (lower : String → String) (c : Capacity F) (p : Policy)
    (pinned : Option (Dict String)) (o : Offer F)
    → verdict_of f lower c p pinned o ≡ passed_over
    → ((o.model == "" || o.artifact_digest == "") ≡ true)
      ⊎ ((off_pin lower pinned o ≡ true) × (is_pinned pinned o ≡ false))
unfolding verdict_of
passed-over {F} f lower c p pinned o h =
    elim (Bool-cases (o.model == "" || o.artifact_digest == "")) [
      | inl unnamed ↦ inl unnamed
      | inr e ↦ off_the_pin (rw (e, if◌then◌else◌) at h)
    ]
  where
    host_verdict : (blocked : Option (Reason F)) → verdict_of_host f lower c o blocked ≢ passed_over
    host_verdict none k = unfold verdict_of_host in ground arith
    host_verdict (some reason) k = unfold verdict_of_host in cc

    checks : Verdict F
    checks =
        if not o.servable
        then refused no_envelope
        else (if not (allows p o)
            then refused excluded
            else (if is_general o && not p.accept_licences
                then refused (licence_not_accepted o.licence o.licence_url)
                else verdict_of_host f lower c o (unrunnable o c)))

    not_over : checks ≢ passed_over
    not_over k =
        let (_, h1) = later (not o.servable) (λ e. cc) k in
        let (_, h2) = later (not (allows p o)) (λ e. cc) h1 in
        let (_, h3) = later (is_general o && not p.accept_licences) (λ e. cc) h2 in
        host_verdict (unrunnable o c) h3

    off_the_pin :
        (if off_pin lower pinned o
            then (if is_pinned pinned o then refused moved_past_pin else passed_over)
            else checks)
          ≡ passed_over
        → ((o.model == "" || o.artifact_digest == "") ≡ true)
          ⊎ ((off_pin lower pinned o ≡ true) × (is_pinned pinned o ≡ false))
    off_the_pin k = elim (Bool-cases (off_pin lower pinned o)) [
      | inl off ↦ inr (off, (later (is_pinned pinned o) (λ e. cc) (rw (off, if◌then◌else◌) at k)).0)
      | inr on_pin ↦ absurd (not_over (rw (on_pin, if◌then◌else◌) at k))
    ]

-- Every offer that has a name and a digest, and for which a pin is given if pins are given, either has
-- its model held on some gpu, or has a reason why not.
pub build_answers :
    {F : Type 0} (f : Floats F) (lower : String → String) (rows : List (Offer F)) (c : Capacity F)
    (holding : Held) (p : Policy) (pinned : Option (Dict String)) (preferred : Dict String)
    (o : Offer F)
    → Any (λ row. row ≡ o) rows
    → o.model ≢ ""
    → o.artifact_digest ≢ ""
    → (pinned ≡ none) ⊎ (is_pinned pinned o ≡ true)
    → (contains o.model (map (λ h. h.model) (build f lower rows c holding p pinned preferred).hold)
        ≡ true)
      ⊎ (has o.model (build f lower rows c holding p pinned preferred).reasons ≡ true)
unfolding build plan_of
build_answers {F} f lower rows c holding p pinned preferred o here named digested asked =
    by_verdict (verdict o) refl
  where
    verdict : Offer F → Verdict F
    verdict = verdict_of f lower c p pinned

    offers : List (Offer F)
    offers = usable_of verdict rows

    assigned : Dict (Offer F)
    assigned = assign f offers c.gpus holding preferred

    reasons : Dict (Reason F)
    reasons = with_waiting (placed_in assigned) offers (reasons_of verdict rows [])

    Answer : Type 0
    Answer =
        (contains o.model (map (λ h. h.model) (map (λ e. holding_of e.0 e.1) assigned)) ≡ true)
        ⊎ (has o.model reasons ≡ true)

    waiting :
        verdict o ≡ usable
        → contains o.model (placed_in assigned) ≡ false
        → has o.model reasons ≡ true
    waiting =
        All-Any
          (λ r.
            verdict r ≡ usable
            → contains r.model (placed_in assigned) ≡ false
            → has r.model reasons ≡ true)
          rows
          (All-usable_of
            (λ r. contains r.model (placed_in assigned) ≡ false → has r.model reasons ≡ true)
            verdict rows (waiting-has (placed_in assigned) offers (reasons_of verdict rows [])))
          here

    unpinned : is_pinned pinned o ≡ false → off_pin lower pinned o ≡ true → ⊥
    unpinned e off = elim asked [
      | inl no_pins ↦ cc (sym off ∙ ap (λ pins. off_pin lower pins o) no_pins)
      | inr pinned_here ↦ cc (sym e ∙ pinned_here)
    ]

    unnamed : (o.model == "" || o.artifact_digest == "") ≡ true → ⊥
    unnamed e = elim (Bool-cases (o.model == "")) [
      | inl m ↦ named ((eq_iff o.model "").0 m)
      | inr m ↦ digested ((eq_iff o.artifact_digest "").0 (ground arith))
    ]

    by_verdict : (v : Verdict F) → verdict o ≡ v → Answer
    by_verdict usable e = elim (Bool-cases (contains o.model (placed_in assigned))) [
      | inl placed ↦ inl (ap (contains o.model) (placed_in-models assigned) ∙ placed)
      | inr absent ↦ inr (waiting e absent)
    ]
    by_verdict (refused reason) e = inr (
        has-with_waiting o.model (placed_in assigned) offers (reasons_of verdict rows []) (
          All-Any
            (λ r.
              (why : Reason F)
              → verdict r ≡ refused why
              → has r.model (reasons_of verdict rows []) ≡ true)
            rows (refused-has verdict rows []) here reason e))
    by_verdict passed_over e = elim (passed-over f lower c p pinned o e) [
      | inl empty ↦ absurd (unnamed empty)
      | inr (off, lost) ↦ absurd (unpinned lost off)
    ]
