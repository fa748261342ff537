-- ===== src/Serving/Pools/Dials/Caps.antt =====
-- The cap that a schedule gives, and the settings that are accepted.
use microtensor_subnet.Base.{
  ◌≤◌, ◌<◌, ◌≡◌, refl, List, [], ◌∷◌, ◌++◌, arith, Option, none, some, ok, raised, subst, All, true,
  false, Bool-cases, inl, inr, ◌⊎◌, >>=-eq-ok, raise_if, not, Option-cases, if◌then◌else◌, ap,
  ok-injective,
}
use microtensor_subnet.Base.Fractions.{Fraction, Signed, whole, lt_fraction, sub_fraction}
use microtensor_subnet.Serving.Pools.Dials.{
  RawNumber, Band, Dials, new_dials, fraction_of, pick_band, cap_for, rises, is_empty,
  bands_must_rise, cap_over_one, open_band_not_last,
}

-- The band that applies to a billing: its cap is at most one, the billing reaches every bound
-- before it, and it has no bound and stands last, or its bound is above the billing.
pub record Applies (billing : Fraction) (bands : List Band) (cap : Fraction) : Type 0 where
  pub before : List Band
  pub band : Band
  pub after : List Band
  pub listed : bands ≡ before ++ band ∷ after
  pub read : fraction_of band.cap ≡ ok cap
  pub at_most_one : cap.num ≤ cap.den
  pub passed :
      All
        (λ b.
          (limit : RawNumber) × (bound : Fraction) × (b.billing_usd_below ≡ some limit)
          × (fraction_of limit ≡ ok bound)
          × (lt_fraction billing bound ≡ false))
        before
  pub reached :
      (band.billing_usd_below ≡ none) × (after ≡ [])
      ⊎ (limit : RawNumber) × (bound : Fraction) × (band.billing_usd_below ≡ some limit)
        × (fraction_of limit ≡ ok bound)
        × (lt_fraction billing bound ≡ true)

at_most_one_of :
    (cap : Fraction) → raise_if (lt_fraction (whole 1) cap) cap_over_one ≡ ok tt → cap.num ≤ cap.den
at_most_one_of cap h = ground arith

last_band :
    (rest : List Band) (c cap : Fraction)
    → (if is_empty rest then ok c else raised open_band_not_last) ≡ ok cap
    → (rest ≡ []) × (c ≡ cap)
last_band [] c cap h = (refl, ok-injective h)
last_band (b ∷ rest) c cap h = absurd (cc)

Applies-cons :
    (billing : Fraction) (band : Band) (rest : List Band) (cap bound : Fraction) (limit : RawNumber)
    → band.billing_usd_below ≡ some limit
    → fraction_of limit ≡ ok bound
    → lt_fraction billing bound ≡ false
    → Applies billing rest cap
    → Applies billing (band ∷ rest) cap
Applies-cons billing band rest cap bound limit bounded known past a = record {
  before = band ∷ a.before;
  band = a.band;
  after = a.after;
  listed = ap (λ l. band ∷ l) a.listed;
  read = a.read;
  at_most_one = a.at_most_one;
  passed = ((limit, bound, bounded, known, past), a.passed);
  reached = a.reached;
}

pick_band-Applies :
    (billing : Fraction) (previous : Option Fraction) (bands : List Band) (cap : Fraction)
    → pick_band billing previous bands ≡ ok cap
    → Applies billing bands cap
unfolding pick_band
pick_band-Applies billing previous [] cap h = absurd (cc)
pick_band-Applies billing previous (band ∷ rest) cap h =
    let (c, read, h1) = >>=-eq-ok (fraction_of band.cap) _ h in
    let (_, small, h2) = >>=-eq-ok (raise_if (lt_fraction (whole 1) c) cap_over_one) _ h1 in
    elim (Option-cases band.billing_usd_below) [
      | inl unbounded ↦
          let (no_more, same) = last_band rest c cap (rw unbounded at h2) in
          subst (Applies billing (band ∷ rest)) same (record {
            before = [];
            band = band;
            after = rest;
            listed = refl;
            read = read;
            at_most_one = at_most_one_of c small;
            passed = tt;
            reached = inl (unbounded, no_more);
          })
      | inr (limit, bounded) ↦
          let (bound, known, h3) = >>=-eq-ok (fraction_of limit) _ (rw bounded at h2) in
          let (_, _, h4) = >>=-eq-ok (raise_if (not (rises previous bound)) bands_must_rise) _ h3 in
          elim (Bool-cases (lt_fraction billing bound)) [
            | inl below ↦
                subst (Applies billing (band ∷ rest)) (ok-injective (rw below at h4)) (record {
                  before = [];
                  band = band;
                  after = rest;
                  listed = refl;
                  read = read;
                  at_most_one = at_most_one_of c small;
                  passed = tt;
                  reached = inr (limit, bound, bounded, known, below);
                })
            | inr past ↦
                Applies-cons billing band rest cap bound limit bounded known past
                  (pick_band-Applies billing (some bound) rest cap (rw past at h4))
          ]
    ]

-- A schedule that is not empty gives the cap of the band that applies to the billing.
pub cap_for-Applies :
    (band : Band) (rest : List Band) (billing_usd : RawNumber) (default cap : Fraction)
    → cap_for (band ∷ rest) billing_usd default ≡ ok cap
    → (billing : Fraction) × (fraction_of billing_usd ≡ ok billing)
      × Applies billing (band ∷ rest) cap
unfolding cap_for
cap_for-Applies band rest billing_usd default cap h =
    let (billing, known, h1) = >>=-eq-ok (fraction_of billing_usd) _ h in
    (billing, known, pick_band-Applies billing none (band ∷ rest) cap h1)

-- Accepted settings: the rebate stays below what is left beside the revenue share.
pub new_dials-accepted :
    (reserve cap rebate revenue_share : Signed) {d : Dials}
    → new_dials reserve cap rebate revenue_share ≡ ok d
    → (d.reserve.num < d.reserve.den)
      × (d.cap.num ≤ d.cap.den)
      × (d.revenue_share.num ≤ d.revenue_share.den)
      × (lt_fraction d.rebate (sub_fraction (whole 1) d.revenue_share) ≡ true)
unfolding new_dials
new_dials-accepted reserve cap rebate revenue_share h = ground arith
