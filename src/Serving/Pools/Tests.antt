-- ===== src/Serving/Pools/Tests.antt =====
-- A small epoch, and the theorems about its division. Operators `a` and `b` have one coldkey, and
-- `t` is the team's.
use microtensor_subnet.Base.{
  ℕ, ◌*◌, ◌/◌, ◌≤◌, ◌≡◌, refl, String, Bool, true, false, List, [], ◌∷◌, none, some, ok, arith,
  sum_of, All, text_lt, text_le, add_to_set,
}
use microtensor_subnet.Base.Int.{pos}
use microtensor_subnet.Base.Fractions.{Fraction, Signed, ratio, part_of}
use microtensor_subnet.Base.Dict.{Dict, get, get_or, has, total, put, add_at}
use microtensor_subnet.Base.Sorting.{sort}
use microtensor_subnet.Serving.Settle.{Settled}
use microtensor_subnet.Serving.Pools.Dials.{
  Dials, Band, RawNumber, number, new_dials, cap_for, pick_band, default_cap, fraction_of,
}
use microtensor_subnet.Serving.Pools.Exclusion.{
  team, coldkey, excluded_of, see_all, mark, leaders, lead,
}
use microtensor_subnet.Serving.Pools.Exclusion.Lone.{excluded_of-lone}
use microtensor_subnet.Serving.Pools.Bounties.{bounties_of, claims_of, claim, pay_digests, pay_each}
use microtensor_subnet.Serving.Pools.Shares.{shares_of, totals_of, proportion, largest, give_rest}
use microtensor_subnet.Serving.Pools.Shares.Exact.{shares_of_fair, score_by}
use microtensor_subnet.Serving.Pools.Divide.{
  Split, divide, weights, split_of, amounts_of, shares_before, without_excluded, add_bounties,
  add_weights, add_uid,
}
use microtensor_subnet.Serving.Pools.Floors.{grant_floors}
use microtensor_subnet.Serving.Pools.Divide.Conserve.{IsConserved, IsValid, divide-IsConserved}
use microtensor_subnet.Serving.Pools.Divide.Unpaid.{divide-unpaid}
use microtensor_subnet.Serving.Pools.Divide.Lifted.{HasFloor, divide-HasFloor}
use microtensor_subnet.Serving.Pools.Divide.Weights.{weights-total, known_total}

abbrev row : String → String → Bool → ℕ → List String → Settled
row operator key is_team score first_live = record {
  operator = operator;
  model = "mt/sql";
  gpu = "g0";
  inside = score;
  outside = 0;
  probes = 0;
  passes = 0;
  tokens = 0;
  billing = 1000;
  score = score;
  coldkey = key;
  team = is_team;
  first_live = first_live;
}

abbrev epoch : List Settled
epoch =
    row "a" "k" false 300 ("d1" ∷ [])
    ∷ row "b" "k" false 100 ("d1" ∷ "d2" ∷ [])
    ∷ row "c" "m" false 200 ("d1" ∷ [])
    ∷ row "t" "n" true 400 []
    ∷ []

abbrev no_bounty : Signed
no_bounty = record { num = pos 0; den = 1 }

abbrev a_tenth : Signed
a_tenth = record { num = pos 1; den = 10 }

program : Unit {0}
unfolding excluded_of see_all mark leaders lead sort text_lt text_le bounties_of claims_of claim
    add_to_set pay_digests pay_each shares_of totals_of proportion largest give_rest divide split_of
    amounts_of shares_before without_excluded add_bounties grant_floors part_of weights add_weights
    add_uid get get_or put has total add_at cap_for pick_band fraction_of new_dials
program = tt

excluded_epoch : excluded_of epoch ≡ ("t", team) ∷ ("b", coldkey) ∷ []
unfolding program
excluded_epoch = refl

bounties_epoch : bounties_of 60 epoch (excluded_of epoch) ≡ ("a", 30) ∷ ("c", 30) ∷ []
unfolding program
bounties_epoch = refl

shares_epoch : shares_of 101 epoch ≡ ("a", 30) ∷ ("b", 10) ∷ ("c", 20) ∷ ("t", 41) ∷ []
unfolding program
shares_epoch = refl

abbrev split : Split
split = record {
  emission = 2000;
  available = 2000;
  serving = 200;
  modelling = 1800;
  total_score = 1000;
  capped = false;
  shares = ("a", 51) ∷ ("c", 36) ∷ ("b", 20) ∷ [];
  burned = 93;
  floors = ("b", 20) ∷ [];
  bounties = ("a", 8) ∷ ("c", 8) ∷ [];
  excluded = ("t", team) ∷ ("b", coldkey) ∷ [];
}

abbrev floors : Dict Fraction
floors = ("b", ratio 1 10) ∷ []

divide-epoch : divide (pos 2000) epoch none floors a_tenth ≡ ok split
unfolding program
divide-epoch = refl

-- Without given dials the defaults apply.
no_dials : (d : Dials) → none ≡ some d → IsValid d
no_dials d h = absurd (cc)

divide-IsConserved_example : IsConserved 2000 split
divide-IsConserved_example = divide-IsConserved 2000 epoch none floors a_tenth no_dials divide-epoch

divide-HasFloor_example : All (HasFloor split) floors
divide-HasFloor_example = divide-HasFloor 2000 epoch none floors a_tenth no_dials divide-epoch

t_excluded : has "t" (excluded_of epoch) ≡ true
unfolding program
t_excluded = refl

t_no_floor : has "t" floors ≡ false
unfolding program
t_no_floor = refl

divide-unpaid_example : get "t" split.shares ≡ none
divide-unpaid_example =
    divide-unpaid "t" 2000 epoch none floors a_tenth t_excluded t_no_floor divide-epoch

-- With the first operator alone behind its coldkey.
c_paid : has "c" (excluded_of epoch) ≡ false
unfolding program
c_paid = refl

excluded_of-lone_example : ◌≡◌ {A = String} "c" "c"
excluded_of-lone_example = excluded_of-lone epoch "c" "c" "m" refl refl c_paid c_paid

shares_of_fair_example : 101 * score_by "a" epoch / 1000 ≤ get_or "a" 0 (shares_of 101 epoch)
shares_of_fair_example = shares_of_fair 101 epoch "a" (omega arith)

weights-total_example :
    sum_of (λ e. e.1) (weights split (("a", 7) ∷ ("c", 7) ∷ []))
    ≡ known_total (("a", 7) ∷ ("c", 7) ∷ []) split.shares
weights-total_example = weights-total split (("a", 7) ∷ ("c", 7) ∷ [])

weights_epoch : weights split (("a", 7) ∷ ("c", 7) ∷ []) ≡ (7, 87) ∷ []
unfolding program
weights_epoch = refl

abbrev amount : ℕ → ℕ → RawNumber
amount n d = number (record { num = pos n; den = d })

abbrev schedule : List Band
schedule =
    record { cap = amount 1 20; billing_usd_below = some (amount 100 1) }
    ∷ record { cap = amount 1 10; billing_usd_below = none }
    ∷ []

cap_for_high : cap_for schedule (amount 250 1) default_cap ≡ ok (ratio 1 10)
unfolding program
cap_for_high = refl

abbrev signed : ℕ → ℕ → Signed
signed n d = record { num = pos n; den = d }

abbrev dials : Dials
dials = record {
  reserve = ratio 0 1;
  cap = ratio 1 10;
  rebate = ratio 1 25;
  revenue_share = ratio 19 20;
}

new_dials_default : new_dials (signed 0 1) (signed 1 10) (signed 1 25) (signed 19 20) ≡ ok dials
unfolding program
new_dials_default = refl
