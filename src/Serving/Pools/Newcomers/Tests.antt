-- ===== src/Serving/Pools/Newcomers/Tests.antt =====
-- A registry of three operators, of which one is new.
use microtensor_subnet.Base.{
  ◌*◌, ◌≡◌, refl, String, true, false, List, [], ◌∷◌, Option, none, some, ok, Any, ◌==◌,
}
use microtensor_subnet.Base.Int.{ℤ, pos, ◌-ℤ◌}
use microtensor_subnet.Base.Fractions.{ratio, lt_fraction}
use microtensor_subnet.Base.Dict.{get, put}
use microtensor_subnet.Serving.Pools.Dials.{RawNumber, number, fraction_of, max_floor_share}
use microtensor_subnet.Serving.Pools.Newcomers.{
  Operator, is_newcomer, IsNewcomer, add_floors, floors_for, floors_for-newcomers,
}

abbrev instants : String → Option ℤ
instants text = elim (text == "early") [
  | true ↦ some (pos 10)
  | false ↦ elim (text == "late") [ true ↦ some (pos 90) | false ↦ none ]
]

abbrev operators : List Operator
operators =
    record { hotkey = "a"; admitted_at = "early"; models = "m" ∷ [] }
    ∷ record { hotkey = "b"; admitted_at = "late"; models = "m" ∷ [] }
    ∷ record { hotkey = "c"; admitted_at = "never"; models = "m" ∷ [] }
    ∷ []

abbrev twentieth : RawNumber
twentieth = number (record { num = pos 1; den = 20 })

program : Unit {0}
unfolding floors_for add_floors is_newcomer fraction_of get put ◌-ℤ◌
program = tt

floors_for_three :
    floors_for instants 2 twentieth operators (pos 100) 15 (some ("m" ∷ []))
    ≡ ok (("b", ratio 1 20) ∷ [])
unfolding program
floors_for_three = refl

floors_for-newcomers_example :
    (fraction_of twentieth ≡ ok (ratio 1 20))
    × (lt_fraction max_floor_share (ratio 1 20) ≡ false)
    × Any
        (λ o. (o.hotkey ≡ "b") × IsNewcomer instants (pos 100) (2 * 15) (some ("m" ∷ [])) o)
        operators
unfolding program
floors_for-newcomers_example =
    floors_for-newcomers instants 2 twentieth operators (pos 100) 15 (some ("m" ∷ [])) "b"
      (ratio 1 20) floors_for_three refl
