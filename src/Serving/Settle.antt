-- ===== src/Serving/Settle.antt =====
-- microtensor_subnet/serving/settle.py: scores and billing of served requests.
-- A value of a row is what `int(row.get(name, 0) or 0)` makes of it.
pub mod Score
pub mod Rows
pub mod Tests
use microtensor_subnet.Base.{
  ℕ, ◌+◌, ◌*◌, ◌/◌, String, Bool, true, false, List, Option, none, some, Result, ok, raised, ◌>>=◌,
  ◌>>◌, raise_if, ltb, eqb, traverse, if◌then◌else◌, ◌==◌, text_lt, ◌||◌, ◌&&◌,
}
use microtensor_subnet.Base.Int.{ℤ, pos, negsuc}
use microtensor_subnet.Base.Fractions.{Fraction, whole, ratio, add_fraction, mul_fraction, floor}
use microtensor_subnet.Base.Sorting.{sort}
use microtensor_subnet.Base.Dict.{Dict, get}

abbrev pub scale : ℕ
scale = 1000

abbrev pub outside_weight : Fraction
outside_weight = ratio 1 2

abbrev pub tokens_per_rate_unit : ℕ
tokens_per_rate_unit = 1000

pub data SettlementError : Type 0 where
  not_a_count negative_count not_a_rate negative_served negative_billing no_rate : SettlementError

-- A missing or falsy value, a whole number, or a value that `int` refuses.
pub data Cell : Type 0 where
  missing : Cell
  number : ℤ → Cell
  malformed : Cell

pub record Row : Type 0 where
  pub operator : String
  pub model : String
  pub gpu : String
  pub inside : Cell
  pub outside : Cell
  pub probes : Cell
  pub passes : Cell
  pub tokens : Cell
  pub coldkey : String
  pub team : Bool
  pub first_live : List String

pub record Settled : Type 0 where
  pub operator : String
  pub model : String
  pub gpu : String
  pub inside : ℕ
  pub outside : ℕ
  pub probes : ℕ
  pub passes : ℕ
  pub tokens : ℕ
  pub billing : ℕ
  pub score : ℕ
  pub coldkey : String
  pub team : Bool
  pub first_live : List String

unfoldable pub count : Cell → Result SettlementError ℕ
count missing = ok 0
count (number (pos n)) = ok n
count (number (negsuc n)) = raised negative_count
count malformed = raised not_a_count

unfoldable pub pass_rate : ℕ → ℕ → Result SettlementError Fraction
pass_rate probes passes =
    if ltb probes passes
    then raised not_a_rate
    else ok (if eqb probes 0 then whole 1 else ratio passes probes)

unfoldable pub score_of : ℕ → ℕ → ℕ → ℕ → Result SettlementError ℕ
unfolding pass_rate
score_of inside outside probes passes = do
  let weighted = add_fraction (whole inside) (mul_fraction outside_weight (whole outside))
  rate ← pass_rate probes passes
  ok (floor (mul_fraction (mul_fraction weighted rate) (whole scale)))

unfoldable pub billing_of : ℕ → ℤ → Result SettlementError ℕ
billing_of tokens (pos rate) = ok (tokens * rate / tokens_per_rate_unit)
billing_of tokens (negsuc rate) = raised negative_billing

unfoldable pub settle_row : Row → ℤ → Result SettlementError Settled
settle_row row rate = do
  inside ← count row.inside
  outside ← count row.outside
  probes ← count row.probes
  passes ← count row.passes
  tokens ← count row.tokens
  billing ← billing_of tokens rate
  score ← score_of inside outside probes passes
  ok (record {
    operator = row.operator;
    model = row.model;
    gpu = row.gpu;
    inside = inside;
    outside = outside;
    probes = probes;
    passes = passes;
    tokens = tokens;
    billing = billing;
    score = score;
    coldkey = row.coldkey;
    team = row.team;
    first_live = row.first_live;
  })

-- the order of the keys (operator, model, gpu)
unfoldable pub settled_le : Settled → Settled → Bool
settled_le a b =
    text_lt a.operator b.operator
    || a.operator == b.operator
      && (text_lt a.model b.model || a.model == b.model && (text_lt a.gpu b.gpu || a.gpu == b.gpu))

-- The body of the loop: the published rate, and the row at that rate.
unfoldable pub settle_at : Dict ℤ → Row → Result SettlementError Settled
settle_at rates row = elim (get row.model rates) [
  | none ↦ raised no_rate
  | some rate ↦ settle_row row rate
]

unfoldable pub settle_epoch : List Row → Dict ℤ → Result SettlementError (List Settled)
settle_epoch rows rates = do settled ← traverse (settle_at rates) rows; ok (sort settled_le settled)
