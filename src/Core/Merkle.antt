-- ===== src/Core/Merkle.antt =====
-- core/transcript.py, from `leaf` to `verify_leaf`: the Merkle tree over the transcripts of an
-- epoch. The leaves are a dict from hotkey to the sha256 of its transcript.
pub mod Tree
pub mod Proofs
pub mod Binding
pub mod Tests
use microtensor_subnet.Base.{
  ℕ, zero, suc, ◌+◌, ◌-◌, ◌/◌, ◌%◌, String, Bool, true, false, List, [], ◌∷◌, Option, none, some,
  Result, ok, raised, map, if◌then◌else◌, ltb, eqb, length, get_elem?, ◌==◌, text_le, contains,
  ◌>>=◌,
}
use microtensor_subnet.Base.Sorting.{sort}
use microtensor_subnet.Base.Dict.{Dict, get}
use microtensor_subnet.Core.Hashing.{Hashing}

pub data TranscriptError : Type 0 where
  no_leaf no_such_level : TranscriptError

-- {"side": ..., "hash": ...}
pub record ProofStep : Type 0 where
  pub left : Bool
  pub hash : String

-- position ^ 1
unfoldable pub sibling_of : ℕ → ℕ
sibling_of position = if eqb (position % 2) 0 then position + 1 else position - 1

-- names.index(name)
unfoldable pub index_of : String → List String → Option ℕ
index_of name [] = none
index_of name (x ∷ xs) =
    if x == name then some 0 else elim (index_of name xs) [ none ↦ none | some i ↦ some (suc i) ]

-- levels[:-1]
unfoldable pub all_but_last {ℓ} : {A : Type ℓ} → List A → List A
all_but_last [] = []
all_but_last (x ∷ []) = []
all_but_last (x ∷ y ∷ ys) = x ∷ all_but_last (y ∷ ys)

-- levels[-1]
unfoldable pub last_of {ℓ} : {A : Type ℓ} → A → List A → A
last_of d [] = d
last_of d (x ∷ xs) = last_of x xs

module _ (h : Hashing) where
  open h use {Digest, pair, leaf, empty_root, hex, from_hex, lower}

  -- The level above: a last node without a partner is paired with itself.
  unfoldable pub pair_up : List Digest → List Digest
  pair_up [] = []
  pair_up (x ∷ []) = pair x x ∷ []
  pair_up (x ∷ y ∷ rest) = pair x y ∷ pair_up rest

  -- `while len(levels[-1]) > 1`; a level is at most half as long as the one below, so the number of
  -- leaves bounds the rounds.
  unfoldable pub levels_from : ℕ → List Digest → List (List Digest)
  levels_from zero current = current ∷ []
  levels_from (suc fuel) current =
      let above = levels_from fuel (pair_up current) in
      if ltb 1 (length current) then current ∷ above else current ∷ []

  unfoldable pub levels : List Digest → List (List Digest)
  levels leaves = levels_from (length leaves) leaves

  unfoldable pub row_le : String × String → String × String → Bool
  row_le a b = text_le a.0 b.0

  -- for hotkey in sorted(leaves)
  unfoldable pub ordered_leaves : Dict String → List (String × Digest)
  ordered_leaves leaves = map (λ e. (e.0, leaf e.0 e.1)) (sort row_le leaves)

  abbrev pub first_hex : List Digest → String
  first_hex [] = empty_root
  first_hex (d ∷ rest) = hex d

  abbrev pub digests_of : Dict String → List Digest
  digests_of leaves = map (λ e. e.1) (ordered_leaves leaves)

  -- Without rows there is one empty level, and the root is that of the empty text.
  unfoldable pub merkle_root : Dict String → String
  merkle_root leaves = first_hex (last_of [] (levels (digests_of leaves)))

  -- level[sibling] if sibling < len(level) else level[position]
  unfoldable pub partner_of : List Digest → ℕ → Option Digest
  partner_of level position =
      if ltb (sibling_of position) (length level)
      then get_elem? level (sibling_of position)
      else get_elem? level position

  abbrev pub step_of : ℕ → Digest → ProofStep
  step_of position partner = record {
    left = ltb (sibling_of position) position;
    hash = hex partner;
  }

  -- The loop over the levels below the root; `none` would be an IndexError.
  unfoldable pub proof_steps : List (List Digest) → ℕ → Option (List ProofStep)
  proof_steps [] position = some []
  proof_steps (level ∷ rest) position = elim (partner_of level position) [
    | none ↦ none
    | some partner ↦ elim (proof_steps rest (position / 2)) [
      | none ↦ none
      | some steps ↦ some (step_of position partner ∷ steps)
    ]
  ]

  unfoldable pub merkle_proof : Dict String → String → Result TranscriptError (List ProofStep)
  merkle_proof leaves hotkey = elim (index_of hotkey (map (λ e. e.0) (ordered_leaves leaves))) [
    | none ↦ raised no_leaf
    | some position ↦ elim (proof_steps (all_but_last (levels (digests_of leaves))) position) [
      | none ↦ raised no_such_level
      | some steps ↦ ok steps
    ]
  ]

  -- The loop of `check_proof`; `none` where a hash is not hexadecimal.
  unfoldable pub climb : Digest → List ProofStep → Option Digest
  climb current [] = some current
  climb current (step ∷ rest) = elim (from_hex step.hash) [
    | none ↦ none
    | some partner ↦ climb (if step.left then pair partner current else pair current partner) rest
  ]

  unfoldable pub check_proof : String → List ProofStep → String → Bool
  check_proof leaf_value proof root = elim (from_hex leaf_value) [
    | none ↦ false
    | some current ↦ elim (climb current proof) [ none ↦ false | some top ↦ hex top == lower root ]
  ]

  unfoldable pub verify_leaf : String → String → Dict String → String → Bool
  verify_leaf hotkey transcript_sha leaves root = elim (get hotkey leaves) [
    | none ↦ false
    | some sha ↦ if sha == transcript_sha then merkle_root leaves == lower root else false
  ]
