-- ===== src/Serving/Settle/Tests.antt =====
-- Small rows, and the theorems about settlement at them.
use mathlib.Core.List.{Perm}
use microtensor_subnet.Base.{ℕ, ◌≡◌, refl, String, false, List, [], ◌∷◌, ok, raised, All₂, text_lt}
use microtensor_subnet.Base.Sorting.{sort}
use microtensor_subnet.Base.Int.{ℤ, pos}
use microtensor_subnet.Base.Dict.{Dict, get}
use microtensor_subnet.Serving.Settle.{
  Row, Settled, number, no_rate, score_of, settle_epoch, settle_row, settle_at, count, billing_of,
  settled_le,
}
use microtensor_subnet.Serving.Settle.Rows.{IsOrdered, Settles, settle_epoch-perm}

abbrev row : String → ℕ → ℕ → ℕ → ℕ → Row
row operator inside outside probes passes = record {
  operator = operator;
  model = "mt/sql";
  gpu = "g0";
  inside = number (pos inside);
  outside = number (pos outside);
  probes = number (pos probes);
  passes = number (pos passes);
  tokens = number (pos 5000);
  coldkey = "";
  team = false;
  first_live = [];
}

abbrev settled : String → ℕ → ℕ → ℕ → ℕ → ℕ → Settled
settled operator inside outside probes passes score = record {
  operator = operator;
  model = "mt/sql";
  gpu = "g0";
  inside = inside;
  outside = outside;
  probes = probes;
  passes = passes;
  tokens = 5000;
  billing = 15;
  score = score;
  coldkey = "";
  team = false;
  first_live = [];
}

abbrev rates : Dict ℤ
rates = ("mt/sql", pos 3) ∷ []

program : Unit {0}
unfolding settle_epoch settle_at settle_row count billing_of score_of settled_le text_lt sort get
program = tt

score_of-two_thirds : score_of 10 5 3 2 ≡ ok 8333
unfolding program
score_of-two_thirds = refl

score_of-all : score_of 10 5 3 3 ≡ ok 12500
unfolding program
score_of-all = refl

settle_two :
    settle_epoch (row "b" 10 5 3 2 ∷ row "a" 1 0 0 0 ∷ []) rates
    ≡ ok (settled "a" 1 0 0 0 1000 ∷ settled "b" 10 5 3 2 8333 ∷ [])
unfolding program
settle_two = refl

settle_unpublished : settle_epoch (row "b" 10 5 3 2 ∷ []) [] ≡ raised no_rate
unfolding program
settle_unpublished = refl

settle_epoch-perm_example :
    (ys : List Settled) × All₂ (Settles rates) (row "b" 10 5 3 2 ∷ row "a" 1 0 0 0 ∷ []) ys
    × Perm (settled "a" 1 0 0 0 1000 ∷ settled "b" 10 5 3 2 8333 ∷ []) ys
    × IsOrdered (settled "a" 1 0 0 0 1000 ∷ settled "b" 10 5 3 2 8333 ∷ [])
settle_epoch-perm_example =
    settle_epoch-perm (row "b" 10 5 3 2 ∷ row "a" 1 0 0 0 ∷ []) rates
      (settled "a" 1 0 0 0 1000 ∷ settled "b" 10 5 3 2 8333 ∷ []) settle_two
