-- ===== src/Serving/Host/Steps.antt =====
-- serving/host/__init__.py, the loops of `apply`: what a host holds after each.
use microtensor_subnet.Base.{
  ◌≡◌, refl, ◌∙◌, inl, inr, String, Bool, true, false, not, List, [], ◌∷◌, Option, none, ◌&&◌, ◌||◌,
  ◌==◌, contains, if◌then◌else◌, arith, eq_iff, All, Bool-cases, map,
}
use microtensor_subnet.Base.Dict.{has}
use microtensor_subnet.Serving.Plan.{Holding}
use microtensor_subnet.Serving.Plan.Assign.{Held}
use microtensor_subnet.Serving.Plan.Placed.{IsNodup}
use microtensor_subnet.Serving.Host.{
  Host, Workshop, done, raises, release, release_all, hold_one, hold_all, release_unwanted,
}
use microtensor_subnet.Serving.Host.Views.{IsApart, on, release-on, release-IsApart}
use microtensor_subnet.Serving.Host.Turns.{
  outcome, IsLike, taken-IsLike, release-IsLike, IsLike-trans, hold_one-lem,
}

-- What a host has on a gpu once all holdings were seen to, of which at most one is for the gpu:
-- `before` is what it had there, and `otherwise` what it has if no holding is for the gpu.
abbrev pub reached :
    Workshop
    → Host
    → Option (String × String)
    → List Holding
    → String
    → Option (String × String)
    → Option (String × String)
reached w s before [] gpu otherwise = otherwise
reached w s before (h ∷ hold) gpu otherwise =
    if h.gpu == gpu then outcome w s before h else reached w s before hold gpu otherwise

abbrev pub gpus_of : List Holding → List String
gpus_of hold = map (λ h. h.gpu) hold

pub reached-IsLike :
    (w : Workshop) (s s' : Host) (before : Option (String × String)) (hold : List Holding)
    (gpu : String) (otherwise : Option (String × String))
    → IsLike s s'
    → reached w s before hold gpu otherwise ≡ reached w s' before hold gpu otherwise
reached-IsLike w s s' before [] gpu otherwise like = refl
reached-IsLike w s s' before (h ∷ hold) gpu otherwise like =
    rw (taken-IsLike w h s s' like, reached-IsLike w s s' before hold gpu otherwise like) refl

pub reached-absent :
    (w : Workshop) (s : Host) (before : Option (String × String)) (hold : List Holding)
    (gpu : String) (otherwise : Option (String × String))
    → contains gpu (gpus_of hold) ≡ false
    → reached w s before hold gpu otherwise ≡ otherwise
reached-absent w s before [] gpu otherwise h = refl
reached-absent w s before (x ∷ hold) gpu otherwise h =
    ground (arith, reached-absent w s before hold gpu otherwise)

pub reached-present :
    (w : Workshop) (s : Host) (before : Option (String × String)) (hold : List Holding)
    (gpu : String) (a b : Option (String × String))
    → contains gpu (gpus_of hold) ≡ true
    → reached w s before hold gpu a ≡ reached w s before hold gpu b
reached-present w s before [] gpu a b h = absurd (cc)
reached-present w s before (x ∷ hold) gpu a b h = elim (Bool-cases (x.gpu == gpu)) [
  | inl e ↦ rw (e, if◌then◌else◌) refl
  | inr e ↦ rw (e, if◌then◌else◌) (reached-present w s before hold gpu a b (rw (e) at h))
]

pub absent-contains :
    (g gpu : String) (gpus : List String)
    → All (λ k. (g == k) ≡ false) gpus
    → (g == gpu) ≡ true
    → contains gpu gpus ≡ false
absent-contains g gpu [] h e = refl
absent-contains g gpu (k ∷ gpus) (this, h) e =
    ground (arith, eq_iff g gpu, eq_iff g k, eq_iff k gpu, absent-contains g gpu gpus h e)

-- What a host comes to where no call of `declare` raises.
abbrev pub all_held : Workshop → List Holding → Host → Host
all_held w [] s = s
all_held w (h ∷ hold) s = all_held w hold (hold_one w h s)

-- Each holding can be declared, if it is taken up.
abbrev pub CanDeclare : Workshop → List Holding → Type 0
CanDeclare w hold = All (λ h. w.declares h ≡ true) hold

pub hold_all-done :
    (w : Workshop) (hold : List Holding) (s : Host)
    → CanDeclare w hold
    → hold_all w hold s ≡ done (all_held w hold s)
unfolding hold_all raises
hold_all-done w [] s h = refl
hold_all-done w (h ∷ hold) s (this, rest) =
    rw (no_raise _ _ (w.declares h) this, if◌then◌else◌)
      (hold_all-done w hold (hold_one w h s) rest)
  where
    no_raise : (a b c : Bool) → c ≡ true → (a && b && not c) ≡ false
    no_raise a b c e = ground arith

pub all_held-lem :
    (w : Workshop) (hold : List Holding) (s : Host)
    → IsApart s
    → IsNodup (gpus_of hold)
    → IsApart (all_held w hold s)
      × IsLike (all_held w hold s) s
      × ((gpu : String) → on (all_held w hold s) gpu ≡ reached w s (on s gpu) hold gpu (on s gpu))
all_held-lem w [] s v once = (v, (refl, refl, refl, refl), λ gpu. refl)
all_held-lem w (h ∷ hold) s v (fresh, once) =
    let (v1, like, after) = hold_one-lem w h s v in
    let (v2, like2, later) = all_held-lem w hold (hold_one w h s) v1 once in
    (
      v2,
      IsLike-trans (all_held w hold (hold_one w h s)) (hold_one w h s) s like2 like,
      λ gpu.
          later gpu ∙ reached-IsLike w (hold_one w h s) s _ hold gpu _ like ∙ first gpu (after gpu),
    )
  where
    first :
        (gpu : String) {now : Option (String × String)}
        → now ≡ (if h.gpu == gpu then outcome w s (on s gpu) h else on s gpu)
        → reached w s now hold gpu now ≡ reached w s (on s gpu) (h ∷ hold) gpu (on s gpu)
    first gpu e = elim (Bool-cases (h.gpu == gpu)) [
      | inl same ↦
          reached-absent w s _ hold gpu _ (absent-contains h.gpu gpu (gpus_of hold) fresh same)
          ∙ e
          ∙ rw (same, if◌then◌else◌) refl
      | inr ne ↦ rw (e, ne, if◌then◌else◌) refl
    ]

pub release_all-lem :
    (drop : List String) (s : Host)
    → IsApart s
    → IsApart (release_all drop s)
      × IsLike (release_all drop s) s
      × ((gpu : String)
          → on (release_all drop s) gpu ≡ (if contains gpu drop then none else on s gpu))
unfolding release_all
release_all-lem [] s v = (v, (refl, refl, refl, refl), λ gpu. refl)
release_all-lem (g ∷ drop) s v =
    let (v1, like, after) = release_all-lem drop (release g s) (release-IsApart s g v) in
    (
      v1,
      IsLike-trans (release_all drop (release g s)) (release g s) s like (release-IsLike g s),
      λ gpu. after gpu ∙ first gpu (release-on s g gpu v),
    )
  where
    first :
        (gpu : String) {now : Option (String × String)}
        → now ≡ (if g == gpu then none else on s gpu)
        → (if contains gpu drop then none else now)
          ≡ (if g == gpu || contains gpu drop then none else on s gpu)
    first gpu e = rw e (ground arith)

-- one turn of the last loop
released_unless :
    (test : Bool) (g : String) (s : Host)
    → IsApart s
    → IsApart (if test then s else release g s)
      × ((gpu : String)
          → on (if test then s else release g s) gpu
            ≡ (if not test && g == gpu then none else on s gpu))
released_unless true g s v = (v, λ gpu. refl)
released_unless false g s v = (release-IsApart s g v, λ gpu. release-on s g gpu v)

pub release_unwanted-lem :
    (wanted : Held) (gpus : List String) (s : Host)
    → IsApart s
    → IsApart (release_unwanted wanted gpus s)
      × ((gpu : String)
          → on (release_unwanted wanted gpus s) gpu
            ≡ (if has gpu wanted then on s gpu else (if contains gpu gpus then none else on s gpu)))
unfolding release_unwanted
release_unwanted-lem wanted [] s v = (v, λ gpu. ground arith)
release_unwanted-lem wanted (g ∷ gpus) s v =
    let (apart, now) = released_unless (has g wanted) g s v in
    let (v1, after) =
      release_unwanted-lem wanted gpus (if has g wanted then s else release g s) apart in
    (v1, λ gpu. after gpu ∙ joined gpu (now gpu))
  where
    joined :
        (gpu : String) {now : Option (String × String)}
        → now ≡ (if not (has g wanted) && g == gpu then none else on s gpu)
        → (if has gpu wanted then now else (if contains gpu gpus then none else now)) ≡ (
            if has gpu wanted
            then on s gpu
            else (if g == gpu || contains gpu gpus then none else on s gpu))
    joined gpu k = rw k (ground (arith, eq_iff g gpu))
