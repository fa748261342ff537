-- ===== src/Serving/Host/Applied.antt =====
-- serving/host/__init__.py, `apply`: what a host holds after a plan was carried out.
use microtensor_subnet.Base.{
  ◌≡◌, refl, sym, ap, ◌∙◌, inl, inr, String, Bool, true, false, List, [], ◌∷◌, Option, none, some,
  ◌||◌, ◌==◌, contains, if◌then◌else◌, arith, eq_iff, All, Bool-cases, subst,
}
use microtensor_subnet.Base.Dict.{Dict, get, put, has, has-put, keys}
use microtensor_subnet.Serving.Plan.{Holding}
use microtensor_subnet.Serving.Plan.Assign.{Held}
use microtensor_subnet.Serving.Plan.Build.{is_pair, wanted_of, wanted_from}
use microtensor_subnet.Serving.Plan.Placed.{IsNodup}
use microtensor_subnet.Serving.Host.{
  Host, Workshop, holding, release_all, release_unwanted, done, then_release, apply,
}
use microtensor_subnet.Serving.Host.Views.{is_some, IsApart, on, get-holding}
use microtensor_subnet.Serving.Host.Turns.{pair_in, outcome-taken}
use microtensor_subnet.Serving.Host.Steps.{
  reached, gpus_of, CanDeclare, hold_all-done, reached-IsLike, reached-absent, reached-present,
  all_held, all_held-lem, release_all-lem, release_unwanted-lem,
}

pub contains-keys : {V : Type 0} (k : String) (d : Dict V) → contains k (keys d) ≡ is_some (get k d)
unfolding get
contains-keys k [] = refl
contains-keys k ((j, v) ∷ d) = ground (arith, contains-keys k d)

has-wanted_from :
    (gpu : String) (wanted : Held) (hold : List Holding)
    → has gpu (wanted_from wanted hold) ≡ (has gpu wanted || contains gpu (gpus_of hold))
has-wanted_from gpu wanted [] = ground arith
has-wanted_from gpu wanted (h ∷ hold) =
    has-wanted_from gpu (put h.gpu (pair_in h) wanted) hold
    ∙ ground (arith, has-put h.gpu gpu (pair_in h) wanted)

has-wanted_of :
    (gpu : String) (hold : List Holding) → has gpu (wanted_of hold) ≡ contains gpu (gpus_of hold)
unfolding wanted_of has
has-wanted_of gpu hold = has-wanted_from gpu [] hold

-- No gpu is dropped on which a holding has what it wants.
abbrev pub IsSparing : Host → List String → List Holding → Type 0
IsSparing s drop hold =
    All (λ h. contains h.gpu drop ≡ true → is_pair (get h.gpu (holding s)) (pair_in h) ≡ false) hold

-- A gpu that is dropped had nothing that was wanted.
reached-dropped :
    (w : Workshop) (s : Host) (drop : List String) (hold : List Holding) (gpu : String)
    (otherwise : Option (String × String))
    → contains gpu drop ≡ true
    → IsSparing s drop hold
    → reached w s none hold gpu otherwise ≡ reached w s (get gpu (holding s)) hold gpu otherwise
reached-dropped w s drop [] gpu otherwise d h = refl
reached-dropped w s drop (x ∷ hold) gpu otherwise d (this, h) = elim (Bool-cases (x.gpu == gpu)) [
  | inl e ↦
      rw (e, if◌then◌else◌)
        (sym (
          outcome-taken w s (get gpu (holding s)) x (
            subst (λ g. contains g drop ≡ true → is_pair (get g (holding s)) (pair_in x) ≡ false)
              ((eq_iff x.gpu gpu).0 e) this d)))
  | inr e ↦ rw (e, if◌then◌else◌) (reached-dropped w s drop hold gpu otherwise d h)
]

-- What is left of a gpu by the last loop.
left_over :
    (present : Bool) (now target : Option (String × String))
    → (present ≡ true → now ≡ target)
    → (present ≡ false → target ≡ none)
    → (if present then now else (if is_some now then none else now)) ≡ target
left_over true now target h k = h refl
left_over false none target h k = sym (k refl)
left_over false (some pair) target h k = sym (k refl)

reached-freed :
    (w : Workshop) (s : Host) (drop : List String) (hold : List Holding) (gpu : String)
    {now : Option (String × String)}
    → now ≡ (if contains gpu drop then none else get gpu (holding s))
    → IsSparing s drop hold
    → reached w s now hold gpu none ≡ reached w s (get gpu (holding s)) hold gpu none
reached-freed w s drop hold gpu e sparing = elim (Bool-cases (contains gpu drop)) [
  | inl d ↦ rw (e, d, if◌then◌else◌) (reached-dropped w s drop hold gpu none d sparing)
  | inr d ↦ rw (e, d, if◌then◌else◌) refl
]

-- After `apply` a host has on each gpu what the plan comes to: on a gpu with a holding what the host
-- held, if that is what is wanted, and otherwise what could be taken up, and on any other gpu nothing;
-- if the plan has a gpu once, drops none that has what is wanted, and what is taken up can be declared.
-- And still no gpu is held twice.
pub apply-reached :
    (w : Workshop) (drop : List String) (hold : List Holding) (s : Host)
    → IsApart s
    → IsNodup (gpus_of hold)
    → IsSparing s drop hold
    → CanDeclare w hold
    → (after : Host) × (apply w drop hold s ≡ done after)
      × IsApart after
      × ((gpu : String) → get gpu (holding after) ≡ reached w s (get gpu (holding s)) hold gpu none)
unfolding apply
apply-reached w drop hold s v once sparing declared =
    let (v1, like, freed) = release_all-lem drop s v in
    let (v2, like2, held) = all_held-lem w hold (release_all drop s) v1 once in
    let kept = all_held w hold (release_all drop s) in
    let (v3, left) = release_unwanted-lem (wanted_of hold) (keys (holding kept)) kept v2 in
    (
      release_unwanted (wanted_of hold) (keys (holding kept)) kept,
      ap (then_release hold) (hold_all-done w hold (release_all drop s) declared),
      v3,
      λ gpu.
          get-holding _ gpu v3
          ∙ left gpu
          ∙ rw
              (
                has-wanted_of gpu hold,
                contains-keys gpu (holding kept),
                get-holding kept gpu v2,
                held gpu,
              )
              (left_over (contains gpu (gpus_of hold))
                (reached w (release_all drop s) (on (release_all drop s) gpu) hold gpu
                  (on (release_all drop s) gpu))
                (reached w s (get gpu (holding s)) hold gpu none)
                (λ present.
                  reached-IsLike w (release_all drop s) s (on (release_all drop s) gpu) hold gpu
                    (on (release_all drop s) gpu) like
                  ∙ reached-present w s (on (release_all drop s) gpu) hold gpu
                      (on (release_all drop s) gpu) none present
                  ∙ reached-freed w s drop hold gpu (freed gpu ∙ before gpu) sparing)
                (λ absent. reached-absent w s (get gpu (holding s)) hold gpu none absent)),
    )
  where
    before :
        (gpu : String)
        → (if contains gpu drop then none else on s gpu)
          ≡ (if contains gpu drop then none else get gpu (holding s))
    before gpu = ap (λ now. if contains gpu drop then none else now) (sym (get-holding s gpu v))
