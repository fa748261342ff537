-- ===== src/Serving/Host/Settles.antt =====
-- serving/host/__init__.py, `apply`, and serving/plan.py, `changed`: when a review has nothing left to do.
use microtensor_subnet.Base.{
  ℕ, suc, ◌≤◌, ◌≡◌, refl, sym, ap, ◌∙◌, inl, inr, String, true, false, List, [], ◌∷◌, Option, some,
  eqb, ◌==◌, length, if◌then◌else◌, arith, eq_iff, All, Bool-cases, subst,
}
use microtensor_subnet.Base.Dict.{Dict, get, get-put, get-pop, put, pop, Lacks}
use microtensor_subnet.Base.SortedDict.{Distinct}
use microtensor_subnet.Base.Floats.{Floats}
use microtensor_subnet.Serving.Plan.{Holding, Offer, Capacity, Policy}
use microtensor_subnet.Serving.Plan.Assign.{Held}
use microtensor_subnet.Serving.Plan.Build.{is_pair, wanted_of, wanted_from, within, changed}
use microtensor_subnet.Serving.Plan.Placed.{IsNodup}
use microtensor_subnet.Serving.Host.{Host, Workshop, done, holding, plan_now, taken, apply}
use microtensor_subnet.Serving.Host.Views.{
  IsApart, Distinct-put, Distinct-pop, get-none_of_Lacks, pair_taken,
}
use microtensor_subnet.Serving.Host.Turns.{pair_in, outcome}
use microtensor_subnet.Serving.Host.Steps.{
  reached, gpus_of, CanDeclare, reached-absent, absent-contains,
}
use microtensor_subnet.Serving.Host.Applied.{IsSparing, apply-reached}
use microtensor_subnet.Serving.Host.Reviewed.{
  is_pair-eq, same_pair_refl, Distinct-holding, All-get, plan_now-fits,
}

outcome-works :
    (w : Workshop) (s : Host) (before : Option (String × String)) (h : Holding)
    → pair_taken (taken w s h) ≡ some (pair_in h)
    → outcome w s before h ≡ some (pair_in h)
outcome-works w s before h works = elim (Bool-cases (is_pair before (pair_in h))) [
  | inl e ↦ rw (e, if◌then◌else◌) (is_pair-eq before (pair_in h) e)
  | inr e ↦ rw (e, if◌then◌else◌) works
]

-- Every holding can be taken up as it is planned.
abbrev pub CanTake : Workshop → Host → List Holding → Type 0
CanTake w s hold = All (λ h. pair_taken (taken w s h) ≡ some (pair_in h)) hold

reached-wanted_from :
    (w : Workshop) (s : Host) (before : Option (String × String)) (wanted : Held)
    (hold : List Holding) (gpu : String)
    → CanTake w s hold
    → IsNodup (gpus_of hold)
    → reached w s before hold gpu (get gpu wanted) ≡ get gpu (wanted_from wanted hold)
reached-wanted_from w s before wanted [] gpu works once = refl
reached-wanted_from w s before wanted (h ∷ hold) gpu (this, works) (fresh, once) =
    elim (Bool-cases (h.gpu == gpu)) [
      | inl e ↦
          rw (e, if◌then◌else◌)
            (outcome-works w s before h this
              ∙ sym (rw (get-put h.gpu gpu (pair_in h) wanted, e, if◌then◌else◌) refl)
              ∙ sym (
                  reached-absent w s before hold gpu (get gpu (put h.gpu (pair_in h) wanted))
                    (absent-contains h.gpu gpu (gpus_of hold) fresh e))
              ∙ reached-wanted_from w s before (put h.gpu (pair_in h) wanted) hold gpu works once)
      | inr e ↦
          rw (e, if◌then◌else◌)
            (ap (reached w s before hold gpu)
                (sym (rw (get-put h.gpu gpu (pair_in h) wanted, e, if◌then◌else◌) refl))
              ∙ reached-wanted_from w s before (put h.gpu (pair_in h) wanted) hold gpu works once)
    ]

-- If all that a plan holds can be taken up as planned and declared, a host that carries it out has exactly
-- what is wanted, gpu by gpu; if the plan has a gpu once, and drops none that has what is wanted.
apply-wanted :
    (w : Workshop) (drop : List String) (hold : List Holding) (s : Host)
    → IsApart s
    → IsNodup (gpus_of hold)
    → IsSparing s drop hold
    → CanTake w s hold
    → CanDeclare w hold
    → (after : Host) × (apply w drop hold s ≡ done after)
      × ((gpu : String) → get gpu (holding after) ≡ get gpu (wanted_of hold))
unfolding wanted_of get
apply-wanted w drop hold s v once sparing works declared =
    let (after, ran, _, shown) = apply-reached w drop hold s v once sparing declared in
    (
      after,
      ran,
      λ gpu. shown gpu ∙ reached-wanted_from w s (get gpu (holding s)) [] hold gpu works once,
    )

Distinct-wanted_from :
    (wanted : Held) (hold : List Holding) → Distinct wanted → Distinct (wanted_from wanted hold)
Distinct-wanted_from wanted [] h = h
Distinct-wanted_from wanted (x ∷ hold) h =
    Distinct-wanted_from (put x.gpu (pair_in x) wanted) hold
      (Distinct-put x.gpu (pair_in x) wanted h)

pop-Lacks : {V : Type 0} (k : String) (d : Dict V) → Lacks k d → pop k d ≡ d
unfolding pop
pop-Lacks k [] h = refl
pop-Lacks k ((j, v) ∷ d) (ne, h) =
    rw (ne, if◌then◌else◌) (ap (λ rest. (j, v) ∷ rest) (pop-Lacks k d h))

length-pop :
    {V : Type 0} (k : String) (d : Dict V) (v : V)
    → Distinct d
    → get k d ≡ some v
    → length d ≡ suc (length (pop k d))
unfolding get pop
length-pop k [] v h found = absurd (cc)
length-pop k ((j, w) ∷ d) v (this, h) found = elim (Bool-cases (j == k)) [
  | inl e ↦
      rw (e, if◌then◌else◌)
        (ap (λ rest. suc (length rest))
          (sym (pop-Lacks k d (subst (λ i. Lacks i d) ((eq_iff j k).0 e) this))))
  | inr e ↦ rw (e, if◌then◌else◌) (ap suc (length-pop k d v h (rw (e, if◌then◌else◌) at found)))
]

-- A dict whose entries are all in another is no longer than that.
length-le :
    {V : Type 0} (d e : Dict V)
    → Distinct d
    → Distinct e
    → ((k : String) → get k d ≡ get k e)
    → length d ≤ length e
unfolding get
length-le [] e h k same = omega arith
length-le ((j, v) ∷ d) e (this, h) k same =
    let there : get j e ≡ some v = sym (same j) ∙ rw ((eq_iff j j).1 refl, if◌then◌else◌) refl in
    omega (
      arith,
      length-pop j e v k there,
      length-le d (pop j e) h (Distinct-pop j e k) λ i. rest i (same i),
    )
  where
    rest : (i : String) → (if j == i then some v else get i d) ≡ get i e → get i d ≡ get i (pop j e)
    rest i s = elim (Bool-cases (j == i)) [
      | inl q ↦
          get-none_of_Lacks i d (subst (λ n. Lacks n d) ((eq_iff j i).0 q) this)
          ∙ sym (rw (get-pop j i e, q, if◌then◌else◌) refl)
      | inr q ↦ (rw (q, if◌then◌else◌) at s) ∙ sym (rw (get-pop j i e, q, if◌then◌else◌) refl)
    ]

within-same : (d e : Held) → All (λ x. get x.0 e ≡ some x.1) d → within d e ≡ true
within-same [] e h = refl
within-same ((k, pair) ∷ d) e (this, h) = rw (this, same_pair_refl pair) (within-same d e h)

same-All :
    (d e : Held)
    → ((k : String) → get k d ≡ get k e)
    → (rest : Held) → All (λ x. get x.0 d ≡ some x.1) rest
    → All (λ x. get x.0 e ≡ some x.1) rest
same-All d e same [] h = tt
same-All d e same (x ∷ rest) (this, h) = (sym (same x.0) ∙ this, same-All d e same rest h)

eqb-le : (a b : ℕ) → a ≤ b → b ≤ a → eqb a b ≡ true
eqb-le a b h k = ground arith

Distinct-wanted_of : (hold : List Holding) → Distinct (wanted_of hold)
unfolding wanted_of
Distinct-wanted_of hold = Distinct-wanted_from [] hold tt

changed-same :
    (hold : List Holding) (d : Held)
    → Distinct d
    → ((gpu : String) → get gpu d ≡ get gpu (wanted_of hold))
    → changed hold d ≡ false
unfolding changed
changed-same hold d once same =
    let wanted = Distinct-wanted_of hold in
    rw
      (
        within-same (wanted_of hold) d (
            same-All (wanted_of hold) d (λ k. sym (same k)) (wanted_of hold)
              (All-get (wanted_of hold) wanted)),
        eqb-le (length (wanted_of hold)) (length d)
            (length-le (wanted_of hold) d wanted once (λ k. sym (same k)))
            (length-le d (wanted_of hold) once wanted same),
      )
      refl

-- If all that a review plans can be taken up as planned and declared, then the host holds exactly what is
-- wanted once the plan is carried out: `changed` finds no difference; if no gpu of the host is listed
-- twice.
pub changed-apply :
    {F : Type 0} (f : Floats F) (w : Workshop) (rows : List (Offer F)) (c : Capacity F) (p : Policy)
    (pinned : Option (Dict String)) (preferred : Dict String) (s : Host)
    → IsApart s
    → IsNodup s.devices
    → CanTake w s (plan_now f w rows c p pinned preferred s).hold
    → CanDeclare w (plan_now f w rows c p pinned preferred s).hold
    → (after : Host) × (apply w
          (plan_now f w rows c p pinned preferred s).drop
          (plan_now f w rows c p pinned preferred s).hold
          s
        ≡ done after)
      × (changed (plan_now f w rows c p pinned preferred s).hold (holding after) ≡ false)
changed-apply f w rows c p pinned preferred s v once works declared =
    let (nodup, sparing) = plan_now-fits f w rows c p pinned preferred s once in
    let (after, ran, same) = apply-wanted w _ _ s v nodup sparing works declared in
    (
      after,
      ran,
      changed-same (plan_now f w rows c p pinned preferred s).hold _ (Distinct-holding _) same,
    )
