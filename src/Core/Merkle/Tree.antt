-- ===== src/Core/Merkle/Tree.antt =====
-- One level of the tree, and the climb to its top.
use microtensor_subnet.Base.{
  ℕ, zero, suc, ◌*◌, ◌+◌, ◌/◌, ◌≤◌, ◌<◌, ◌≡◌, refl, List, [], ◌∷◌, some, arith, ltb, if◌then◌else◌,
  length, get_elem?, ◌∙◌,
}
use microtensor_subnet.Core.Hashing.{Hashing}
use microtensor_subnet.Core.Merkle.{
  ProofStep, sibling_of, all_but_last, last_of, pair_up, levels_from, partner_of, step_of,
  proof_steps, climb,
}

sibling_of_shift : (p : ℕ) → sibling_of (suc (suc p)) ≡ suc (suc (sibling_of p))
unfolding sibling_of
sibling_of_shift p = ground arith

half_shift : (p : ℕ) → suc (suc p) / 2 ≡ suc (p / 2)
half_shift p = omega arith

module _ (h : Hashing) where
  open h use {Digest, pair, hex, from_hex, from_hex-hex}

  -- The node above position `p`, of a node and its partner.
  abbrev joined : ℕ → Digest → Digest → Digest
  joined p d partner = if ltb (sibling_of p) p then pair partner d else pair d partner

  pub length-pair_up : (xs : List Digest) → 2 * length (pair_up h xs) ≤ length xs + 1
  unfolding pair_up
  length-pair_up [] = omega arith
  length-pair_up (x ∷ []) = omega arith
  length-pair_up (x ∷ y ∷ rest) = omega (arith, length-pair_up rest)

  pub pair_up-pos : (xs : List Digest) → 0 < length xs → 0 < length (pair_up h xs)
  unfolding pair_up
  pair_up-pos [] p = p
  pair_up-pos (x ∷ []) p = omega arith
  pair_up-pos (x ∷ y ∷ rest) p = omega arith

  joined_shift : (p : ℕ) (d partner : Digest) → joined (suc (suc p)) d partner ≡ joined p d partner
  joined_shift p d partner = rw (sibling_of_shift p) (ground arith)

  partner_of_shift :
      (x y : Digest) (rest : List Digest) (p : ℕ)
      → partner_of h (x ∷ y ∷ rest) (suc (suc p)) ≡ partner_of h rest p
  unfolding partner_of
  partner_of_shift x y rest p = rw (sibling_of_shift p) (ground arith)

  -- A node has a partner, and its parent stands at half its position in the level above.
  parent :
      (xs : List Digest) (p : ℕ) (d : Digest)
      → get_elem? xs p ≡ some d
      → (partner : Digest) × (partner_of h xs p ≡ some partner)
        × (get_elem? (pair_up h xs) (p / 2) ≡ some (joined p d partner))
  unfolding partner_of sibling_of pair_up
  parent [] p d e = absurd (cc)
  parent (x ∷ []) zero d e = (d, e, ground arith)
  parent (x ∷ []) (suc p) d e = absurd (cc)
  parent (x ∷ y ∷ rest) zero d e = (y, ground arith, ground arith)
  parent (x ∷ y ∷ rest) (suc zero) d e = (x, ground arith, ground arith)
  parent (x ∷ y ∷ rest) (suc (suc p)) d e =
      let (partner, found, above) = parent rest p d e in
      (
        partner,
        partner_of_shift x y rest p ∙ found,
        rw (half_shift p, joined_shift p d partner) above,
      )

  all_but_last-levels_from :
      (below : List Digest) (fuel : ℕ) (xs : List Digest)
      → all_but_last (below ∷ levels_from h fuel xs) ≡ below ∷ all_but_last (levels_from h fuel xs)
  unfolding all_but_last levels_from
  all_but_last-levels_from below zero xs = refl
  all_but_last-levels_from below (suc fuel) xs = ground arith

  last_of-levels_from :
      (a b : List Digest) (fuel : ℕ) (xs : List Digest)
      → last_of a (levels_from h fuel xs) ≡ last_of b (levels_from h fuel xs)
  unfolding last_of levels_from
  last_of-levels_from a b zero xs = refl
  last_of-levels_from a b (suc fuel) xs = ground arith

  levels_from-long :
      (fuel : ℕ) (x y : Digest) (rest : List Digest)
      → levels_from h (suc fuel) (x ∷ y ∷ rest)
        ≡ (x ∷ y ∷ rest) ∷ levels_from h fuel (pair_up h (x ∷ y ∷ rest))
  unfolding levels_from
  levels_from-long fuel x y rest = ground arith

  levels_from-single : (fuel : ℕ) (x : Digest) → levels_from h fuel (x ∷ []) ≡ (x ∷ []) ∷ []
  unfolding levels_from
  levels_from-single zero x = refl
  levels_from-single (suc fuel) x = refl

  pub top_of-single : (fuel : ℕ) (x : Digest) → last_of [] (levels_from h fuel (x ∷ [])) ≡ x ∷ []
  unfolding last_of
  top_of-single fuel x = rw (levels_from-single fuel x) refl

  pub top_of-long :
      (fuel : ℕ) (x y : Digest) (rest : List Digest)
      → last_of [] (levels_from h (suc fuel) (x ∷ y ∷ rest))
        ≡ last_of [] (levels_from h fuel (pair_up h (x ∷ y ∷ rest)))
  unfolding last_of
  top_of-long fuel x y rest =
      rw (levels_from-long fuel x y rest)
        (last_of-levels_from (x ∷ y ∷ rest) [] fuel (pair_up h (x ∷ y ∷ rest)))

  -- What the steps for a position in a tree do.
  pub record Leads (fuel : ℕ) (xs : List Digest) (p : ℕ) (d : Digest) : Type 0 where
    pub steps : List ProofStep
    pub top : Digest
    pub found : proof_steps h (all_but_last (levels_from h fuel xs)) p ≡ some steps
    pub climbed : climb h d steps ≡ some top
    pub ends : last_of [] (levels_from h fuel xs) ≡ top ∷ []

  Leads-single : (fuel : ℕ) (x d : Digest) → some x ≡ some d → Leads fuel (x ∷ []) 0 d
  unfolding proof_steps climb all_but_last last_of
  Leads-single fuel x d e = record {
    steps = [];
    top = d;
    found = rw (levels_from-single fuel x) refl;
    climbed = refl;
    ends = rw (levels_from-single fuel x) (cc);
  }

  Leads-up :
      (fuel : ℕ) (x y : Digest) (rest : List Digest) (p : ℕ) (d partner : Digest)
      → partner_of h (x ∷ y ∷ rest) p ≡ some partner
      → Leads fuel (pair_up h (x ∷ y ∷ rest)) (p / 2) (joined p d partner)
      → Leads (suc fuel) (x ∷ y ∷ rest) p d
  unfolding proof_steps climb last_of
  Leads-up fuel x y rest p d partner found above = record {
    steps = step_of h p partner ∷ above.steps;
    top = above.top;
    found =
        rw (levels_from-long fuel x y rest, all_but_last-levels_from (x ∷ y ∷ rest) fuel _)
          (rw (found, proof_steps) (rw (above.found) refl));
    climbed = rw (from_hex-hex partner, climb) above.climbed;
    ends =
        rw (levels_from-long fuel x y rest)
          (last_of-levels_from _ [] fuel (pair_up h (x ∷ y ∷ rest)) ∙ above.ends);
  }

  -- The steps for a position lead from the node there to the top of the tree.
  pub climb-Leads :
      (fuel : ℕ) (xs : List Digest) (p : ℕ) (d : Digest)
      → length xs ≤ suc fuel
      → get_elem? xs p ≡ some d
      → Leads fuel xs p d
  climb-Leads fuel [] p d small e = absurd (cc)
  climb-Leads fuel (x ∷ []) zero d small e = Leads-single fuel x d e
  climb-Leads fuel (x ∷ []) (suc p) d small e = absurd (cc)
  climb-Leads zero (x ∷ y ∷ rest) p d small e = absurd (omega arith)
  climb-Leads (suc fuel) (x ∷ y ∷ rest) p d small e =
      let (partner, found, above) = parent (x ∷ y ∷ rest) p d e in
      Leads-up fuel x y rest p d partner found (
        climb-Leads fuel (pair_up h (x ∷ y ∷ rest)) (p / 2) (joined p d partner)
          (omega (arith, length-pair_up (x ∷ y ∷ rest))) above)
