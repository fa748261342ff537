-- ===== src/Serving/Pools/Dials.antt =====
-- serving/pools.py, `Dials`, `fraction_of`, `cap_for` and `bounty_share_of`. A `RawNumber` is what
-- `Fraction(value)` makes of a value.
pub mod Caps
use microtensor_subnet.Base.{
  ℕ, String, Bool, true, false, List, [], ◌∷◌, Option, none, some, Result, ok, raised, ◌>>=◌, ◌>>◌,
  raise_if, ltb, eqb, if◌then◌else◌, ◌&&◌, not,
}
use microtensor_subnet.Base.Int.{ℤ, pos, negsuc}
use microtensor_subnet.Base.Fractions.{
  Fraction, Signed, whole, ratio, sub_fraction, lt_fraction, le_fraction,
}

pub data PoolError : Type 0 where
  not_a_number negative bad_reserve bad_cap bad_rebate bad_revenue_share manufactured cap_over_one
        open_band_not_last bands_must_rise no_last_band bad_bounty_share bad_floor_share
        negative_emission :
      PoolError

pub data RawNumber : Type 0 where
  number : Signed → RawNumber
  unreadable : RawNumber

pub record Dials : Type 0 where
  pub reserve : Fraction
  pub cap : Fraction
  pub rebate : Fraction
  pub revenue_share : Fraction

abbrev pub default_cap : Fraction
default_cap = ratio 1 10

abbrev pub default_dials : Dials
default_dials = record {
  reserve = whole 0;
  cap = default_cap;
  rebate = ratio 1 25;
  revenue_share = ratio 19 20;
}

abbrev pub max_bounty_share : Fraction
max_bounty_share = ratio 1 2

abbrev pub default_bounty_share : Fraction
default_bounty_share = ratio 1 20

abbrev pub max_floor_share : Fraction
max_floor_share = ratio 1 2

-- The part of a check that refuses a negative number.
abbrev pub not_negative : Signed → PoolError → Result PoolError Fraction
not_negative f e = elim f.num [ pos n ↦ ok (record { num = n; den = f.den }) | negsuc n ↦ raised e ]

-- `Dials.__post_init__`
unfoldable pub new_dials : Signed → Signed → Signed → Signed → Result PoolError Dials
new_dials reserve cap rebate revenue_share = do
  r ← not_negative reserve bad_reserve
  raise_if (not (lt_fraction r (whole 1))) bad_reserve
  c ← not_negative cap bad_cap
  raise_if (not (le_fraction c (whole 1))) bad_cap
  b ← not_negative rebate bad_rebate
  s ← not_negative revenue_share bad_revenue_share
  raise_if (not (le_fraction s (whole 1))) bad_revenue_share
  raise_if (le_fraction (sub_fraction (whole 1) s) b) manufactured
  ok (record { reserve = r; cap = c; rebate = b; revenue_share = s })

unfoldable pub fraction_of : RawNumber → Result PoolError Fraction
fraction_of (number f) = not_negative f negative
fraction_of unreadable = raised not_a_number

pub record Band : Type 0 where
  pub cap : RawNumber
  pub billing_usd_below : Option RawNumber

abbrev pub is_empty {ℓ} : {A : Type ℓ} → List A → Bool
is_empty [] = true
is_empty (x ∷ xs) = false

abbrev pub rises : Option Fraction → Fraction → Bool
rises none limit = true
rises (some previous) limit = not (le_fraction limit previous)

-- The loop over the bands; `previous` is the bound of the band before.
unfoldable pub pick_band : Fraction → Option Fraction → List Band → Result PoolError Fraction
pick_band billing previous [] = raised no_last_band
pick_band billing previous (band ∷ rest) = do
  cap ← fraction_of band.cap
  raise_if (lt_fraction (whole 1) cap) cap_over_one
  elim band.billing_usd_below [
    | none ↦ if is_empty rest then ok cap else raised open_band_not_last
    | some bound ↦ do
      limit ← fraction_of bound
      raise_if (not (rises previous limit)) bands_must_rise
      elim (lt_fraction billing limit) [
        | true ↦ ok cap
        | false ↦ pick_band billing (some limit) rest
      ]
  ]

unfoldable pub cap_for : List Band → RawNumber → Fraction → Result PoolError Fraction
cap_for [] billing_usd default = ok default
cap_for (band ∷ rest) billing_usd default = do
  billing ← fraction_of billing_usd
  pick_band billing none (band ∷ rest)

unfoldable pub dials_for : List Band → RawNumber → Result PoolError Dials
dials_for schedule billing_usd = do
  cap ← cap_for schedule billing_usd default_cap
  ok (record default_dials { cap = cap })

unfoldable pub bounty_share_of : Option RawNumber → Result PoolError Fraction
bounty_share_of none = ok default_bounty_share
bounty_share_of (some raw) = do
  share ← fraction_of raw
  raise_if (lt_fraction max_bounty_share share) bad_bounty_share
  ok share
