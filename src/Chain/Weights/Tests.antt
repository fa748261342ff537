-- ===== src/Chain/Weights/Tests.antt =====
-- Weights of four uids, in thousandths; one of them is zero.
use microtensor_subnet.Base.{ℕ, ◌≡◌, refl, List, [], ◌∷◌, ok, raised, length, arith}
use microtensor_subnet.Serving.Plan.Samples.{thousandths}
use microtensor_subnet.Chain.Weights.{
  WeightVector, repeated, sum, checked_vector, parts_of, rest_le, quantise_weights, u16_max,
  restrict_to_metagraph,
}
use microtensor_subnet.Chain.Weights.Total.{quantise_weights-total}

abbrev given : List (ℕ × ℕ)
given = (3, 1000) ∷ (1, 2000) ∷ (7, 0) ∷ (5, 1000) ∷ []

program : Unit {0}
unfolding quantise_weights parts_of rest_le restrict_to_metagraph
program = tt

-- The two uids with the larger rest get one more.
quantised :
    quantise_weights thousandths given u16_max
    ≡ ok (record { uids = 1 ∷ 3 ∷ 5 ∷ []; values = 32767 ∷ 16384 ∷ 16384 ∷ [] })
unfolding program
quantised = refl

restricted : restrict_to_metagraph thousandths given 5 ≡ (3, 1000) ∷ (1, 2000) ∷ []
unfolding program
restricted = refl

twice : checked_vector (record { uids = 1 ∷ 2 ∷ 1 ∷ []; values = 5 ∷ 5 ∷ 5 ∷ [] }) ≡ raised repeated
unfolding program
twice = refl

quantise_weights-total_example :
    (v : WeightVector) × (quantise_weights thousandths given u16_max ≡ ok v)
    × (sum v.values ≡ u16_max)
    × (length v.uids ≡ length v.values)
unfolding program
quantise_weights-total_example =
    quantise_weights-total thousandths given u16_max (λ e. cc) (omega arith) (omega arith)
      ((refl, (refl, (refl, tt))), ((refl, (refl, tt)), ((refl, tt), (tt, tt))))
      (record { below = omega arith; near = omega arith })
