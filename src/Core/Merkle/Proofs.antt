-- ===== src/Core/Merkle/Proofs.antt =====
-- The proof that `merkle_proof` gives is accepted by `check_proof`, and the root binds the leaves.
use microtensor_subnet.Base.{
  ℕ, suc, ◌≡◌, refl, String, List, [], ◌∷◌, some, ok, arith, true, length, get_elem?, map,
  Bool-cases, inl, inr, ◌∙◌, eq_iff, ◌==◌,
}
use microtensor_subnet.Base.Sorting.{sort}
use microtensor_subnet.Base.Dict.{Dict, get}
use microtensor_subnet.Base.SortedDict.{Distinct, get-sort, get-map}
use microtensor_subnet.Core.Hashing.{Hashing}
use microtensor_subnet.Core.Merkle.{
  ProofStep, index_of, all_but_last, last_of, levels, row_le, ordered_leaves, digests_of,
  merkle_root, proof_steps, merkle_proof, climb, check_proof,
}
use microtensor_subnet.Core.Merkle.Tree.{climb-Leads}

-- A key that a dict holds has an index, and its value stands there.
index_of-get :
    {A : Type 0} (name : String) (rows : Dict A) (a : A)
    → get name rows ≡ some a
    → (i : ℕ) × (index_of name (map (λ e. e.0) rows) ≡ some i)
      × (get_elem? (map (λ e. e.1) rows) i ≡ some a)
unfolding index_of get
index_of-get name [] a e = absurd (cc)
index_of-get name ((other, b) ∷ rows) a e = elim (Bool-cases (other == name)) [
  | inl here ↦ (0, ground arith, ground arith)
  | inr there ↦
      let (i, found, at) = index_of-get name rows a (ground arith) in (suc i, ground arith, at)
]

module _ (h : Hashing) where
  open h use {Digest, leaf, hex, lower, lower-hex, from_hex-hex}

  get-ordered_leaves :
      (leaves : Dict String) (hotkey sha : String)
      → Distinct leaves
      → get hotkey leaves ≡ some sha
      → get hotkey (ordered_leaves h leaves) ≡ some (leaf hotkey sha)
  unfolding ordered_leaves
  get-ordered_leaves leaves hotkey sha distinct held =
      get-map leaf hotkey sha (sort (row_le h) leaves)
        (get-sort (row_le h) hotkey leaves distinct ∙ held)

  merkle_proof-eq :
      (leaves : Dict String) (hotkey : String) (i : ℕ) (steps : List ProofStep)
      → index_of hotkey (map (λ e. e.0) (ordered_leaves h leaves)) ≡ some i
      → proof_steps h (all_but_last (levels h (digests_of h leaves))) i ≡ some steps
      → merkle_proof h leaves hotkey ≡ ok steps
  unfolding merkle_proof
  merkle_proof-eq leaves hotkey i steps found known = rw (found, merkle_proof) (rw known refl)

  check_proof-eq :
      (d top : Digest) (proof : List ProofStep) (root : String)
      → climb h d proof ≡ some top
      → lower root ≡ hex top
      → check_proof h (hex d) proof root ≡ true
  unfolding check_proof
  check_proof-eq d top proof root climbed same =
      rw (from_hex-hex d, check_proof) (rw climbed (rw same ((eq_iff (hex top) (hex top)).1 refl)))

  merkle_root-eq :
      (leaves : Dict String) (top : Digest)
      → last_of [] (levels h (digests_of h leaves)) ≡ top ∷ []
      → lower (merkle_root h leaves) ≡ hex top
  unfolding merkle_root
  merkle_root-eq leaves top e = rw e (lower-hex top)

  -- Every hotkey with a leaf gets a proof, and the proof is accepted against the root.
  pub check_proof-merkle_proof :
      (leaves : Dict String) (hotkey sha : String)
      → Distinct leaves
      → get hotkey leaves ≡ some sha
      → (proof : List ProofStep) × (merkle_proof h leaves hotkey ≡ ok proof)
        × (check_proof h (hex (leaf hotkey sha)) proof (merkle_root h leaves) ≡ true)
  unfolding levels
  check_proof-merkle_proof leaves hotkey sha distinct held =
      let d = leaf hotkey sha in
      let ds = digests_of h leaves in
      let (i, found, at) =
        index_of-get hotkey (ordered_leaves h leaves) d
          (get-ordered_leaves leaves hotkey sha distinct held) in
      let lead = climb-Leads h (length ds) ds i d (omega arith) at in
      (
        lead.steps,
        merkle_proof-eq leaves hotkey i lead.steps found lead.found,
        check_proof-eq d lead.top lead.steps (merkle_root h leaves) lead.climbed
            (merkle_root-eq leaves lead.top lead.ends),
      )
