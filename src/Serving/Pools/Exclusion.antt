-- ===== src/Serving/Pools/Exclusion.antt =====
-- serving/pools.py, `excluded_of`: who may not be paid.
pub mod Lone
use microtensor_subnet.Base.{
  ℕ, String, Bool, true, false, List, [], ◌∷◌, Option, none, some, ltb, eqb, if◌then◌else◌, ◌&&◌,
  ◌||◌, not, ◌==◌, text_lt,
}
use microtensor_subnet.Base.Sorting.{sort}
use microtensor_subnet.Base.Dict.{Dict, get, get_or, put, has, add_at}
use microtensor_subnet.Serving.Settle.{Settled}

pub data Reason : Type 0 where
  team coldkey : Reason

-- The three dicts of the first loop.
pub record Seen : Type 0 where
  pub totals : Dict ℕ
  pub coldkeys : Dict String
  pub found : Dict Reason

abbrev pub nothing_seen : Seen
nothing_seen = record { totals = []; coldkeys = []; found = [] }

unfoldable pub see : Seen → Settled → Seen
see seen row = record {
  totals = add_at row.operator row.score seen.totals;
  coldkeys =
      if row.coldkey == "" then seen.coldkeys else put row.operator row.coldkey seen.coldkeys;
  found = if row.team then put row.operator team seen.found else seen.found;
}

unfoldable pub see_all : Seen → List Settled → Seen
unfolding see
see_all seen [] = seen
see_all seen (row ∷ rows) = see_all (see seen row) rows

-- (totals[a], a) > (totals[b], b)
abbrev pub outranks : Dict ℕ → String → String → Bool
outranks totals a b =
    let x = get_or a 0 totals in let y = get_or b 0 totals in ltb y x || eqb x y && text_lt b a

abbrev pub leads : Dict ℕ → String → Option String → Bool
leads totals operator none = true
leads totals operator (some leader) = outranks totals operator leader

-- The second loop: the leading operator of each coldkey.
unfoldable pub lead : Seen → Dict String → List (String × String) → Dict String
lead seen best [] = best
lead seen best ((operator, key) ∷ rest) =
    lead seen
      (if not (has operator seen.found) && leads seen.totals operator (get key best)
        then put key operator best
        else best)
      rest

-- the order of `sorted(coldkeys.items())`
abbrev pub entry_le : String × String → String × String → Bool
entry_le (a, c) (b, d) = text_lt a b || a == b && (text_lt c d || c == d)

abbrev pub is_leader : String → Option String → Bool
is_leader operator none = false
is_leader operator (some leader) = leader == operator

-- The third loop.
unfoldable pub mark : Dict String → List (String × String) → Dict Reason → Dict Reason
mark best [] found = found
mark best ((operator, key) ∷ rest) found = mark best rest (
    if has operator found || is_leader operator (get key best)
    then found
    else put operator coldkey found)

unfoldable pub leaders : Seen → Dict String
leaders seen = lead seen [] (sort entry_le seen.coldkeys)

unfoldable pub excluded_of : List Settled → Dict Reason
unfolding leaders
excluded_of settled =
    let seen = see_all nothing_seen settled in mark (leaders seen) seen.coldkeys seen.found
