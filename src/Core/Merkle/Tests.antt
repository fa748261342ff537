-- ===== src/Core/Merkle/Tests.antt =====
-- Small trees over a transparent hash: a digest is the text that was hashed.
use Prim.Native.String.{◌++◌}
use microtensor_subnet.Base.{
  ◌≡◌, refl, String, List, [], ◌∷◌, some, ok, true, false, ◌⊎◌, inl, inr, length, ◌==◌, Bool-cases,
  eq_iff, text_le,
}
use microtensor_subnet.Base.Sorting.{sort}
use microtensor_subnet.Base.Dict.{Dict, get}
use microtensor_subnet.Core.Hashing.{Hashing}
use microtensor_subnet.Core.Merkle.{
  ProofStep, merkle_root, merkle_proof, check_proof, digests_of, levels, levels_from, pair_up,
  ordered_leaves, row_le, last_of, index_of, all_but_last, proof_steps, partner_of, sibling_of,
  climb, verify_leaf,
}
use microtensor_subnet.Core.Merkle.Proofs.{check_proof-merkle_proof}
use microtensor_subnet.Core.Merkle.Binding.{Collision, merkle_root-binding}

abbrev transparent : Hashing
transparent = record {
  Digest = String;
  pair = λ a b. "(" ++ a ++ " " ++ b ++ ")";
  leaf = λ hotkey sha. hotkey ++ "=" ++ sha;
  empty_root = "";
  hex = λ d. d;
  from_hex = λ s. some s;
  lower = λ s. s;
  from_hex-hex = λ d. refl;
  lower-hex = λ d. refl;
  lower-empty_root = refl;
}

abbrev leaves : Dict String
leaves = ("c", "3") ∷ ("a", "1") ∷ ("b", "2") ∷ []

program : Unit {0}
unfolding merkle_root merkle_proof check_proof levels levels_from pair_up ordered_leaves row_le
    last_of index_of all_but_last proof_steps partner_of sibling_of climb sort text_le get
    verify_leaf
program = tt

root_of_three : merkle_root transparent leaves ≡ "((a=1 b=2) (c=3 c=3))"
unfolding program
root_of_three = refl

proof_of_c :
    merkle_proof transparent leaves "c"
    ≡ ok (record { left = false; hash = "c=3" } ∷ record { left = true; hash = "(a=1 b=2)" } ∷ [])
unfolding program
proof_of_c = refl

wrong_leaf :
    check_proof transparent "b=9"
      (record { left = true; hash = "a=1" } ∷ record { left = false; hash = "(c=3 c=3)" } ∷ [])
      (merkle_root transparent leaves)
    ≡ false
unfolding program
wrong_leaf = refl

held_c : get "c" leaves ≡ some "3"
unfolding program
held_c = refl

check_proof-merkle_proof_example :
    (proof : List ProofStep) × (merkle_proof transparent leaves "c" ≡ ok proof)
    × (check_proof transparent "c=3" proof (merkle_root transparent leaves) ≡ true)
check_proof-merkle_proof_example =
    check_proof-merkle_proof transparent leaves "c" "3" ((refl, (refl, tt)), ((refl, tt), (tt, tt)))
      held_c

text_discrete : Discrete String
text_discrete a b = elim (Bool-cases (a == b)) [
  | inl e ↦ yes ((eq_iff a b).0 e)
  | inr e ↦ no (λ p. cc ((eq_iff a b).1 p))
]

abbrev reordered : Dict String
reordered = ("b", "2") ∷ ("c", "3") ∷ ("a", "1") ∷ []

same_number : length (digests_of transparent leaves) ≡ length (digests_of transparent reordered)
unfolding program
same_number = refl

same_root : merkle_root transparent leaves ≡ merkle_root transparent reordered
unfolding program
same_root = refl

merkle_root-binding_example :
    (digests_of transparent leaves ≡ digests_of transparent reordered)
    ⊎ Collision transparent text_discrete
merkle_root-binding_example =
    merkle_root-binding transparent text_discrete leaves reordered same_number same_root
