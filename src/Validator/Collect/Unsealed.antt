-- ===== src/Validator/Collect/Unsealed.antt =====
-- What a sealed commitment becomes: the loop at the start of `candidates`.
use microtensor_subnet.Base.{◌≡◌, String, true}
use microtensor_subnet.Base.Dict.{Dict}
use microtensor_subnet.Base.Text.Builtins.{Builtins}
use microtensor_subnet.Chain.Commitments.Submissions.{SubmissionCommitment}
use microtensor_subnet.Chain.Commitments.Sealed.{SealedCommitment, matches}
use microtensor_subnet.Validator.Collect.{Roster, Entry, entry_of, fee_key}

-- The roster reveals the commitment c behind a sealed one: its digest is of the artifact that c names,
-- under the salt of the entry, and the arena and the fee are those of the sealed commitment.
pub record Reveals (b : Builtins) (sha256 : String → String) (entry : Entry)
    (sealed : SealedCommitment) (c : SubmissionCommitment) : Type 0 where
  pub is_unsealed : entry.reveal_state ≡ "unsealed"
  pub matching : matches b sha256 sealed c.hf_user c.artifact_sha entry.salt ≡ true
  pub arena : c.arena_id ≡ sealed.arena_id
  pub fee : fee_key c ≡ (sealed.fee_block, sealed.fee_index)

module _ (b : Builtins) (sha256 : String → String) where
  open b use {lower}

  abbrev as_submission : Entry → SealedCommitment → SubmissionCommitment
  as_submission entry sealed = record {
    arena_id = sealed.arena_id;
    hf_user = entry.hf_user;
    artifact_sha = lower entry.artifact_sha;
    fee_block = sealed.fee_block;
    fee_index = sealed.fee_index;
    profile = sealed.profile;
  }

  -- The sealed commitment of the hotkey k from which the roster reveals c.
  abbrev pub IsRevealedFrom :
      Roster → String → SubmissionCommitment → String × SealedCommitment → Type 0
  IsRevealedFrom roster k c (hotkey, sealed) =
      (hotkey ≡ k) × Reveals b sha256 (entry_of roster k) sealed c
