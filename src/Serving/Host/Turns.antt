-- ===== src/Serving/Host/Turns.antt =====
-- serving/host/__init__.py, one turn of the loop of `apply` over what is to be held.
use microtensor_subnet.Base.{
  ◌≡◌, refl, sym, ap, ◌∙◌, inl, inr, String, true, false, Option, none, ◌==◌, if◌then◌else◌, arith,
  eq_iff, Bool-cases,
}
use microtensor_subnet.Base.Dict.{get, has}
use microtensor_subnet.Serving.Plan.{Holding}
use microtensor_subnet.Serving.Plan.Build.{is_pair}
use microtensor_subnet.Serving.Host.{
  Host, Workshop, holding, release, Taken, in_image, in_plain, in_sandbox, rejected, failed, taken,
  settled, take_up, cleared, hold_one,
}
use microtensor_subnet.Serving.Host.Views.{
  has-get, IsApart, on, get-holding, release-on, release-IsApart, pair_taken, settled-on,
  settled-IsApart,
}

abbrev pub pair_in : Holding → String × String
pair_in h = (h.model, h.artifact_digest)

-- What a host that held `before` on the gpu of a holding has there once the holding was seen to: what it
-- held, if that is what is wanted, and otherwise what could be taken up.
abbrev pub outcome : Workshop → Host → Option (String × String) → Holding → Option (String × String)
outcome w s before h = if is_pair before (pair_in h) then before else pair_taken (taken w s h)

-- what takes part in taking up
abbrev pub IsLike : Host → Host → Type 0
IsLike s s' =
    (s.entries ≡ s'.entries)
    × (s.devices ≡ s'.devices)
    × (s.shims ≡ s'.shims)
    × (s.accept_licences ≡ s'.accept_licences)

pub taken-IsLike :
    (w : Workshop) (h : Holding) (s s' : Host) → IsLike s s' → taken w s h ≡ taken w s' h
unfolding taken
taken-IsLike w h s s' (a, b, c, d) = rw (a, b, c, d) refl

pub release-IsLike : (g : String) (s : Host) → IsLike (release g s) s
unfolding release
release-IsLike g s = elim (Bool-cases (has g s.images_held)) [
  | inl e ↦ rw (e, if◌then◌else◌) (refl, refl, refl, refl)
  | inr e ↦ elim (Bool-cases (has g s.plain)) [
    | inl k ↦ rw (e, k, if◌then◌else◌) (refl, refl, refl, refl)
    | inr k ↦ rw (e, k, if◌then◌else◌) (refl, refl, refl, refl)
  ]
]

settled-IsLike : (g : String) (t : Taken) (s : Host) → IsLike (settled g t s) s
unfolding settled
settled-IsLike g (in_image pair) s = (refl, refl, refl, refl)
settled-IsLike g (in_plain pair) s = (refl, refl, refl, refl)
settled-IsLike g (in_sandbox pair) s = (refl, refl, refl, refl)
settled-IsLike g rejected s = (refl, refl, refl, refl)
settled-IsLike g failed s = (refl, refl, refl, refl)

pub IsLike-trans : (a b c : Host) → IsLike a b → IsLike b c → IsLike a c
IsLike-trans a b c (p, q, r, s) (p', q', r', s') = (p ∙ p', q ∙ q', r ∙ r', s ∙ s')

cleared-lem :
    (g : String) (s : Host)
    → IsApart s
    → IsApart (cleared g s)
      × IsLike (cleared g s) s
      × (on (cleared g s) g ≡ none)
      × ((gpu : String) → (g == gpu) ≡ false → on (cleared g s) gpu ≡ on s gpu)
unfolding cleared
cleared-lem g s v = elim (Bool-cases (has g (holding s))) [
  | inl e ↦
      rw (e, if◌then◌else◌)
        (
          release-IsApart s g v,
          release-IsLike g s,
          release-on s g g v ∙ ground (arith, eq_iff g g),
          λ gpu ne. release-on s g gpu v ∙ rw (ne, if◌then◌else◌) refl,
        )
  | inr e ↦
      rw (e, if◌then◌else◌)
        (
          v,
          (refl, refl, refl, refl),
          ground (arith, has-get g (holding s), get-holding s g v),
          λ gpu ne. refl,
        )
]

take_up-lem :
    (w : Workshop) (h : Holding) (s : Host)
    → on s h.gpu ≡ none
    → IsApart s
    → IsApart (take_up w h s)
      × IsLike (take_up w h s) s
      × ((gpu : String)
          → on (take_up w h s) gpu ≡ (if h.gpu == gpu then pair_taken (taken w s h) else on s gpu))
unfolding take_up
take_up-lem w h s free v = (
  settled-IsApart s h.gpu (taken w s h) free v,
  settled-IsLike h.gpu (taken w s h) s,
  λ gpu. settled-on s h.gpu gpu (taken w s h) free,
)

outcome-kept :
    (w : Workshop) (s : Host) (before : Option (String × String)) (h : Holding)
    → is_pair before (pair_in h) ≡ true
    → outcome w s before h ≡ before
outcome-kept w s before h e = rw (e, if◌then◌else◌) refl

pub outcome-taken :
    (w : Workshop) (s : Host) (before : Option (String × String)) (h : Holding)
    → is_pair before (pair_in h) ≡ false
    → outcome w s before h ≡ pair_taken (taken w s h)
outcome-taken w s before h e = rw (e, if◌then◌else◌) refl

-- What was taken up is the outcome on its gpu, and another gpu is as before.
taken_or_other :
    (w : Workshop) (h : Holding) (s : Host) (other : Option (String × String)) (gpu : String)
    {t : Taken}
    → t ≡ taken w s h
    → ((h.gpu == gpu) ≡ false → other ≡ on s gpu)
    → is_pair (on s h.gpu) (pair_in h) ≡ false
    → (if h.gpu == gpu then pair_taken t else other)
      ≡ (if h.gpu == gpu then outcome w s (on s gpu) h else on s gpu)
taken_or_other w h s other gpu same_taken others e = elim (Bool-cases (h.gpu == gpu)) [
  | inl same ↦
      rw (same, if◌then◌else◌)
        (ap pair_taken same_taken
          ∙ sym (
              outcome-taken w s (on s gpu) h
                (ap (λ g. is_pair (on s g) (pair_in h)) (sym ((eq_iff h.gpu gpu).0 same)) ∙ e)))
  | inr ne ↦ rw (ne, if◌then◌else◌) (others ne)
]

pub hold_one-lem :
    (w : Workshop) (h : Holding) (s : Host)
    → IsApart s
    → IsApart (hold_one w h s)
      × IsLike (hold_one w h s) s
      × ((gpu : String)
          → on (hold_one w h s) gpu ≡ (if h.gpu == gpu then outcome w s (on s gpu) h else on s gpu))
unfolding hold_one
hold_one-lem w h s v = elim (Bool-cases (is_pair (get h.gpu (holding s)) (pair_in h))) [
  | inl e ↦ rw (e, if◌then◌else◌) (v, (refl, refl, refl, refl), λ gpu. kept e gpu)
  | inr e ↦
      let (apart, like, free, others) = cleared-lem h.gpu s v in
      let (apart', like', after) = take_up-lem w h (cleared h.gpu s) free apart in
      rw (e, if◌then◌else◌)
        (
          apart',
          IsLike-trans (take_up w h (cleared h.gpu s)) (cleared h.gpu s) s like' like,
          λ gpu.
              after gpu
              ∙ taken_or_other w h s (on (cleared h.gpu s) gpu) gpu (like_taken like) (others gpu)
                  (not_kept e),
        )
]
  where
    kept :
        is_pair (get h.gpu (holding s)) (pair_in h) ≡ true
        → (gpu : String) → on s gpu ≡ (if h.gpu == gpu then outcome w s (on s gpu) h else on s gpu)
    kept e gpu = elim (Bool-cases (h.gpu == gpu)) [
      | inl same ↦
          rw (same, if◌then◌else◌)
            (sym (
              outcome-kept w s (on s gpu) h (
                ap (λ o. is_pair o (pair_in h)) (sym (get-holding s gpu v))
                ∙ ap (λ g. is_pair (get g (holding s)) (pair_in h))
                    (sym ((eq_iff h.gpu gpu).0 same))
                ∙ e)))
      | inr ne ↦ rw (ne, if◌then◌else◌) refl
    ]

    like_taken : IsLike (cleared h.gpu s) s → taken w (cleared h.gpu s) h ≡ taken w s h
    like_taken like = taken-IsLike w h (cleared h.gpu s) s like

    not_kept :
        is_pair (get h.gpu (holding s)) (pair_in h) ≡ false
        → is_pair (on s h.gpu) (pair_in h) ≡ false
    not_kept e = ap (λ o. is_pair o (pair_in h)) (sym (get-holding s h.gpu v)) ∙ e
