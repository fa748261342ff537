-- ===== src/Core/Merkle/Binding.antt =====
-- Two sets of as many leaves with one root are the same, or the hash collides.
use microtensor_subnet.Base.{
  ℕ, zero, suc, ◌≤◌, ◌≡◌, refl, String, List, [], ◌∷◌, arith, length, ◌⊎◌, inl, inr, ap, ◌∙◌, sym,
}
use microtensor_subnet.Base.Dict.{Dict}
use microtensor_subnet.Core.Hashing.{Hashing}
use microtensor_subnet.Core.Merkle.{
  last_of, pair_up, levels_from, levels, digests_of, merkle_root, first_hex,
}
use microtensor_subnet.Core.Merkle.Tree.{length-pair_up, top_of-single, top_of-long, climb-Leads}

module _ (h : Hashing) (same_digest : Discrete (h.Digest)) where
  open h use {Digest, pair, hex, from_hex, from_hex-hex}

  -- Two different inputs of the hash with one output.
  pub record Collision : Type 0 where
    pub a : Digest
    pub b : Digest
    pub c : Digest
    pub d : Digest
    pub equal : pair a b ≡ pair c d
    pub different : ¬ ((a ≡ c) × (b ≡ d))

  pair-binding : (a b c d : Digest) → pair a b ≡ pair c d → ((a ≡ c) × (b ≡ d)) ⊎ Collision
  pair-binding a b c d e = elim (same_digest a c) [
    | no p ↦ inr (record { a = a; b = b; c = c; d = d; equal = e; different = λ q. p q.0 })
    | yes p ↦ elim (same_digest b d) [
      | no q ↦ inr (record { a = a; b = b; c = c; d = d; equal = e; different = λ r. q r.1 })
      | yes q ↦ inl (p, q)
    ]
  ]

  pair_up-binding :
      (xs ys : List Digest)
      → length xs ≡ length ys
      → pair_up h xs ≡ pair_up h ys
      → (xs ≡ ys) ⊎ Collision
  unfolding pair_up
  pair_up-binding [] [] n e = inl refl
  pair_up-binding [] (y ∷ ys) n e = absurd (omega arith)
  pair_up-binding (x ∷ xs) [] n e = absurd (omega arith)
  pair_up-binding (x ∷ []) (y ∷ []) n e = elim (pair-binding x x y y (cc)) [
    | inl (p, _) ↦ inl (cc)
    | inr c ↦ inr c
  ]
  pair_up-binding (x ∷ []) (y ∷ z ∷ ys) n e = absurd (omega arith)
  pair_up-binding (x ∷ z ∷ xs) (y ∷ []) n e = absurd (omega arith)
  pair_up-binding (x ∷ a ∷ xs) (y ∷ b ∷ ys) n e = elim (pair-binding x a y b (cc)) [
    | inl (p, q) ↦ elim (pair_up-binding xs ys (omega arith) (cc)) [
      | inl r ↦ inl (cc)
      | inr c ↦ inr c
    ]
    | inr c ↦ inr c
  ]

  length-pair_up_eq :
      (xs ys : List Digest) → length xs ≡ length ys → length (pair_up h xs) ≡ length (pair_up h ys)
  unfolding pair_up
  length-pair_up_eq [] [] n = refl
  length-pair_up_eq [] (y ∷ ys) n = absurd (omega arith)
  length-pair_up_eq (x ∷ xs) [] n = absurd (omega arith)
  length-pair_up_eq (x ∷ []) (y ∷ []) n = refl
  length-pair_up_eq (x ∷ []) (y ∷ z ∷ ys) n = absurd (omega arith)
  length-pair_up_eq (x ∷ z ∷ xs) (y ∷ []) n = absurd (omega arith)
  length-pair_up_eq (x ∷ a ∷ xs) (y ∷ b ∷ ys) n =
      omega (arith, length-pair_up_eq xs ys (omega arith))

  top_of-binding :
      (fuel : ℕ) (xs ys : List Digest)
      → length xs ≤ suc fuel
      → length xs ≡ length ys
      → last_of [] (levels_from h fuel xs) ≡ last_of [] (levels_from h fuel ys)
      → (xs ≡ ys) ⊎ Collision
  top_of-binding fuel [] [] small n e = inl refl
  top_of-binding fuel [] (y ∷ ys) small n e = absurd (omega arith)
  top_of-binding fuel (x ∷ xs) [] small n e = absurd (omega arith)
  top_of-binding fuel (x ∷ []) (y ∷ []) small n e =
      inl (sym (top_of-single h fuel x) ∙ e ∙ top_of-single h fuel y)
  top_of-binding fuel (x ∷ []) (y ∷ z ∷ ys) small n e = absurd (omega arith)
  top_of-binding fuel (x ∷ z ∷ xs) (y ∷ []) small n e = absurd (omega arith)
  top_of-binding zero (x ∷ a ∷ xs) (y ∷ b ∷ ys) small n e = absurd (omega arith)
  top_of-binding (suc fuel) (x ∷ a ∷ xs) (y ∷ b ∷ ys) small n e =
      let above =
        top_of-binding fuel (pair_up h (x ∷ a ∷ xs)) (pair_up h (y ∷ b ∷ ys))
          (omega (arith, length-pair_up h (x ∷ a ∷ xs)))
          (length-pair_up_eq (x ∷ a ∷ xs) (y ∷ b ∷ ys) n)
          (sym (top_of-long h fuel x a xs) ∙ e ∙ top_of-long h fuel y b ys) in
      elim above [ inl same ↦ pair_up-binding (x ∷ a ∷ xs) (y ∷ b ∷ ys) n same | inr c ↦ inr c ]

  hex-injective : (a b : Digest) → hex a ≡ hex b → a ≡ b
  hex-injective a b e = cc (from_hex-hex a, from_hex-hex b)

  first_hex-injective :
      (tx ty : List Digest) (a b : Digest)
      → tx ≡ a ∷ []
      → ty ≡ b ∷ []
      → first_hex h tx ≡ first_hex h ty
      → tx ≡ ty
  first_hex-injective tx ty a b p q e =
      p ∙ ap (λ d. d ∷ []) (hex-injective a b (rw (p, q) at e)) ∙ sym q

  root-binding :
      (xs ys : List Digest)
      → length xs ≡ length ys
      → first_hex h (last_of [] (levels h xs)) ≡ first_hex h (last_of [] (levels h ys))
      → (xs ≡ ys) ⊎ Collision
  unfolding levels
  root-binding [] [] n e = inl refl
  root-binding [] (y ∷ ys) n e = absurd (omega arith)
  root-binding (x ∷ xs) [] n e = absurd (omega arith)
  root-binding (x ∷ xs) (y ∷ ys) n e =
      let same : length (y ∷ ys) ≡ length (x ∷ xs) = sym n in
      let a = climb-Leads h (length (x ∷ xs)) (x ∷ xs) 0 x (omega arith) refl in
      let b = climb-Leads h (length (x ∷ xs)) (y ∷ ys) 0 y (omega arith) refl in
      top_of-binding (length (x ∷ xs)) (x ∷ xs) (y ∷ ys) (omega arith) n
        (first_hex-injective _ _ a.top b.top a.ends b.ends (rw same at e))

  -- Two epochs with as many leaves and one root have the same ordered leaf digests, or two inputs
  -- of the hash collide.
  pub merkle_root-binding :
      (leaves others : Dict String)
      → length (digests_of h leaves) ≡ length (digests_of h others)
      → merkle_root h leaves ≡ merkle_root h others
      → (digests_of h leaves ≡ digests_of h others) ⊎ Collision
  unfolding merkle_root
  merkle_root-binding leaves others n e =
      root-binding (digests_of h leaves) (digests_of h others) n e
