-- ===== src/Serving/Wire/Capacity/Freest.antt =====
-- The gpu that a request without an instance is routed to.
use microtensor_subnet.Base.{
  ◌≤◌, ◌≡◌, refl, String, true, false, not, List, [], ◌∷◌, eqb, ltb, ◌&&◌, ◌||◌, ◌==◌, ◌⊎◌,
  contains, if◌then◌else◌, arith, All, Any, text_lt, Bool-cases, inl, inr,
}
use microtensor_subnet.Base.Dict.{Dict}
use microtensor_subnet.Serving.Wire.Capacity.{
  Capacity, free, freest_from, freest_among, freest, candidates,
}

-- the better of two gpus
abbrev freer : Capacity → String → String → String
freer c best gpu =
    if ltb (free best c) (free gpu c) || eqb (free best c) (free gpu c) && text_lt best gpu
    then gpu
    else best

free-freer :
    (c : Capacity) (best gpu : String)
    → (free best c ≤ free (freer c best gpu) c) × (free gpu c ≤ free (freer c best gpu) c)
free-freer c best gpu =
    elim (Bool-cases
      (ltb (free best c) (free gpu c) || eqb (free best c) (free gpu c) && text_lt best gpu)) [
        | inl e ↦ rw (e, if◌then◌else◌) (ground arith)
        | inr e ↦ rw (e, if◌then◌else◌) (ground arith)
      ]

freest_from-All :
    (c : Capacity) (best : String) (rest : List String)
    → (free best c ≤ free (freest_from c best rest) c)
      × All (λ gpu. free gpu c ≤ free (freest_from c best rest) c) rest
unfolding freest_from
freest_from-All c best [] = (omega arith, tt)
freest_from-All c best (gpu ∷ rest) =
    let (a, b) = freest_from-All c (freer c best gpu) rest in
    let (from_best, from_gpu) = free-freer c best gpu in
    (omega (arith, from_best, a), (omega (arith, from_gpu, a), b))

-- The gpu holds the model and does not drain; an entry of a dict of models is a gpu with its model.
abbrev pub IsOpenFor : String → Capacity → String × String → Type 0
IsOpenFor model c e = ((e.1 == model) ≡ true) × (contains e.0 c.draining ≡ false)

All-candidates :
    (P : String → Type 0) (model : String) (c : Capacity) (d : Dict String)
    → All P (candidates model c d)
    → All (λ e. IsOpenFor model c e → P e.0) d
unfolding candidates
All-candidates P model c [] h = tt
All-candidates P model c ((gpu, held) ∷ d) h =
    elim (Bool-cases (held == model && not (contains gpu c.draining))) [
      | inl e ↦
          let (this, rest) : P gpu × All P (candidates model c d) = rw (e, if◌then◌else◌) at h in
          (λ open_gpu. this, All-candidates P model c d rest)
      | inr e ↦ (
        λ (holds, stays). absurd (cc (holds, stays, e)),
        All-candidates P model c d (rw (e, if◌then◌else◌) at h),
      )
    ]

candidates-All :
    (model : String) (c : Capacity) (d : Dict String)
    → All (λ gpu. Any (λ e. (e.0 ≡ gpu) × IsOpenFor model c e) d) (candidates model c d)
unfolding candidates
candidates-All model c [] = tt
candidates-All model c ((gpu, held) ∷ d) =
    elim (Bool-cases (held == model && not (contains gpu c.draining))) [
      | inl e ↦
          rw (e, if◌then◌else◌)
            (
              inl (refl, (ground (arith, e), ground (arith, e))),
              weaker _ (candidates-All model c d),
            )
      | inr e ↦ rw (e, if◌then◌else◌) (weaker _ (candidates-All model c d))
    ]
  where
    weaker :
        (gpus : List String)
        → All (λ g. Any (λ e. (e.0 ≡ g) × IsOpenFor model c e) d) gpus
        → All (λ g. Any (λ e. (e.0 ≡ g) × IsOpenFor model c e) ((gpu, held) ∷ d)) gpus
    weaker [] q = tt
    weaker (g ∷ gpus) (this, q) = (inr this, weaker gpus q)

freest_from-any :
    (P : String → Type 0) (c : Capacity) (best : String) (rest : List String)
    → P best
    → All P rest
    → P (freest_from c best rest)
unfolding freest_from
freest_from-any P c best [] h hs = h
freest_from-any P c best (gpu ∷ rest) h (this, hs) =
    elim (Bool-cases
      (ltb (free best c) (free gpu c) || eqb (free best c) (free gpu c) && text_lt best gpu)) [
        | inl e ↦ rw (e, if◌then◌else◌) (freest_from-any P c gpu rest this hs)
        | inr e ↦ rw (e, if◌then◌else◌) (freest_from-any P c best rest h hs)
      ]

-- A request without an instance is routed to a gpu that holds the model and does not drain, and that has
-- as many free places as any other such gpu; or to none, and then no gpu holds the model and does not
-- drain.
pub freest-All :
    (model : String) (c : Capacity)
    → All (λ e. IsOpenFor model c e → free e.0 c ≤ free (freest model c) c) c.models
      × (Any (λ e. (e.0 ≡ freest model c) × IsOpenFor model c e) c.models
          ⊎ ((freest model c ≡ "") × All (λ e. ¬ IsOpenFor model c e) c.models))
unfolding freest
freest-All model c =
    by_candidates (candidates model c c.models) (candidates-All model c c.models)
      (λ P h. All-candidates P model c c.models h)
  where
    by_candidates :
        (gpus : List String)
        → All (λ gpu. Any (λ e. (e.0 ≡ gpu) × IsOpenFor model c e) c.models) gpus
        → ((P : String → Type 0) → All P gpus → All (λ e. IsOpenFor model c e → P e.0) c.models)
        → All (λ e. IsOpenFor model c e → free e.0 c ≤ free (freest_among c gpus) c) c.models
          × (Any (λ e. (e.0 ≡ freest_among c gpus) × IsOpenFor model c e) c.models
              ⊎ ((freest_among c gpus ≡ "") × All (λ e. ¬ IsOpenFor model c e) c.models))
    by_candidates [] open_gpus spread =
        (spread (λ gpu. free gpu c ≤ free "" c) tt, inr (refl, spread (λ gpu. ⊥) tt))
    by_candidates (gpu ∷ rest) (this, open_gpus) spread = (
      spread (λ g. free g c ≤ free (freest_from c gpu rest) c) (freest_from-All c gpu rest),
      inl (
          freest_from-any (λ g. Any (λ e. (e.0 ≡ g) × IsOpenFor model c e) c.models) c gpu rest this
            open_gpus),
    )
