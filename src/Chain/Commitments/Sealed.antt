-- ===== src/Chain/Commitments/Sealed.antt =====
-- chain/commitment.py, `SealedCommitment`: an artifact of an arena, given by the digest of its name
-- and a salt. `sha256` stands for the digest in hexadecimal of a text in UTF-8.
pub mod RoundTrip
use microtensor_subnet.Base.{
  ℕ, String, Bool, true, false, not, List, [], ◌∷◌, Option, none, some, Result, ok, raised, ◌>>=◌,
  ◌>>◌, raise_if, ◌||◌, ◌==◌, if◌then◌else◌,
}
use microtensor_subnet.Base.Int.{ℤ, pos, ltb_ℤ}
use microtensor_subnet.Base.Dict.{Dict}
use microtensor_subnet.Base.Text.{is_blank, strip}
use microtensor_subnet.Base.Text.Builtins.{Builtins}
use microtensor_subnet.Base.Text.Patterns.{
  arena_text, hf_user_text, git_sha_text, digest_text, salt_text,
}
use microtensor_subnet.Base.Text.Split.{split, join}
use microtensor_subnet.Chain.Commitments.Digests.{
  CommitmentError, bad_arena, bad_user, bad_sha, bad_salt, malformed_digest, negative_fee,
  bad_profile, separator, to_option, put_some,
}
use microtensor_subnet.Chain.Commitments.Submissions.{
  SubmissionCommitment, checked_submission, is_unknown_profile,
}

abbrev pub sealed_tag : String
sealed_tag = "mt3"

abbrev pub profile_sealed_tag : String
profile_sealed_tag = "mt5"

abbrev pub reveal_message_tag : String
reveal_message_tag = "mt-reveal"

pub record SealedCommitment : Type 0 where
  pub arena_id : String
  pub digest : String
  pub fee_block : ℤ
  pub fee_index : ℤ
  pub profile : String

-- `SealedCommitment.__post_init__`
unfoldable pub checked_sealed : SealedCommitment → Result CommitmentError SealedCommitment
unfolding is_unknown_profile
checked_sealed c = do
  raise_if (not (arena_text c.arena_id)) bad_arena
  raise_if (not (digest_text c.digest)) malformed_digest
  raise_if (ltb_ℤ c.fee_block (pos 0) || ltb_ℤ c.fee_index (pos 0)) negative_fee
  raise_if (is_unknown_profile c.profile) bad_profile
  ok c

-- `SealedCommitment.unseal`
unfoldable pub unseal :
    SealedCommitment → String → String → Result CommitmentError SubmissionCommitment
unfolding checked_submission
unseal c hf_user artifact_sha = checked_submission (record {
  arena_id = c.arena_id;
  hf_user = hf_user;
  artifact_sha = artifact_sha;
  fee_block = c.fee_block;
  fee_index = c.fee_index;
  profile = c.profile;
})

module _ (b : Builtins) where
  open b use {lower, show_int, read_int}

  -- the bytes of the text in UTF-8
  unfoldable pub reveal_message : String → ℤ → String → String → String → String → String
  reveal_message arena_id epoch_index hotkey hf_user artifact_sha salt = join separator (
      reveal_message_tag
      ∷ arena_id
      ∷ show_int epoch_index
      ∷ hotkey
      ∷ hf_user
      ∷ lower artifact_sha
      ∷ salt
      ∷ [])

  module _ (sha256 : String → String) where
    unfoldable pub seal_digest : String → String → String → String → String
    seal_digest arena_id hf_user artifact_sha salt =
        sha256 (join separator (arena_id ∷ hf_user ∷ lower artifact_sha ∷ salt ∷ []))

    -- `SealedCommitment.seal`
    unfoldable pub seal :
        String → String → String → String → ℤ → ℤ → String → Result CommitmentError SealedCommitment
    unfolding seal_digest checked_sealed
    seal arena_id hf_user artifact_sha salt fee_block fee_index profile = do
      raise_if (not (hf_user_text hf_user)) bad_user
      raise_if (not (git_sha_text (lower artifact_sha))) bad_sha
      raise_if (not (salt_text salt)) bad_salt
      checked_sealed (record {
        arena_id = arena_id;
        digest = seal_digest arena_id hf_user artifact_sha salt;
        fee_block = fee_block;
        fee_index = fee_index;
        profile = profile;
      })

    -- `SealedCommitment.matches`
    unfoldable pub matches : SealedCommitment → String → String → String → Bool
    unfolding seal_digest
    matches c hf_user artifact_sha salt =
        seal_digest c.arena_id hf_user artifact_sha salt == c.digest

  abbrev pub sealed_fields : SealedCommitment → List String
  sealed_fields c =
      if not (is_blank c.profile)
      then profile_sealed_tag
        ∷ c.arena_id
        ∷ c.digest
        ∷ c.profile
        ∷ show_int c.fee_block
        ∷ show_int c.fee_index
        ∷ []
      else sealed_tag ∷ c.arena_id ∷ c.digest ∷ show_int c.fee_block ∷ show_int c.fee_index ∷ []

  -- `SealedCommitment.encode`, with no limit on its size
  unfoldable pub encode_sealed : SealedCommitment → String
  encode_sealed c = join separator (sealed_fields c)

  -- cls(...), with ValueError and CommitmentError as `none`
  unfoldable pub sealed_of : String → String → String → String → String → Option SealedCommitment
  unfolding checked_sealed
  sealed_of arena_id digest profile fee_block fee_index = elim (read_int fee_block) [
    | none ↦ none
    | some block ↦ elim (read_int fee_index) [
      | none ↦ none
      | some index ↦ to_option (
          checked_sealed (record {
            arena_id = arena_id;
            digest = lower digest;
            fee_block = block;
            fee_index = index;
            profile = profile;
          }))
    ]
  ]

  unfoldable pub sealed_of_parts : List String → Option SealedCommitment
  unfolding sealed_of
  sealed_of_parts (tag ∷ arena ∷ digest ∷ block ∷ index ∷ []) =
      if tag == sealed_tag then sealed_of arena digest "" block index else none
  sealed_of_parts (tag ∷ arena ∷ digest ∷ profile ∷ block ∷ index ∷ []) =
      if tag == profile_sealed_tag then sealed_of arena digest profile block index else none
  sealed_of_parts other = none

  -- `SealedCommitment.decode`
  unfoldable pub decode_sealed_text : String → Option SealedCommitment
  unfolding sealed_of_parts
  decode_sealed_text raw = sealed_of_parts (split separator (strip raw))

  unfoldable pub decode_sealed_from : Dict String → Dict SealedCommitment → Dict SealedCommitment
  unfolding decode_sealed_text
  decode_sealed_from [] decoded = decoded
  decode_sealed_from ((hotkey, raw) ∷ rest) decoded =
      decode_sealed_from rest (put_some hotkey (decode_sealed_text raw) decoded)

  unfoldable pub decode_sealed : Dict String → Dict SealedCommitment
  unfolding decode_sealed_from
  decode_sealed raw_by_hotkey = decode_sealed_from raw_by_hotkey []
