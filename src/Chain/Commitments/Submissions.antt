-- ===== src/Chain/Commitments/Submissions.antt =====
-- chain/commitment.py, `SubmissionCommitment`: an artifact of an arena, in the open.
pub mod RoundTrip
use microtensor_subnet.Base.{
  ℕ, String, Bool, true, false, not, List, [], ◌∷◌, Option, none, some, Result, ok, raised, ◌>>=◌,
  ◌>>◌, raise_if, ◌||◌, ◌&&◌, ◌==◌, if◌then◌else◌, contains,
}
use Prim.Native.String.{◌++◌}
use microtensor_subnet.Base.Int.{ℤ, pos, ltb_ℤ}
use microtensor_subnet.Base.Dict.{Dict}
use microtensor_subnet.Base.Text.{is_blank, strip}
use microtensor_subnet.Base.Text.Builtins.{Builtins}
use microtensor_subnet.Base.Text.Patterns.{arena_text, hf_user_text, git_sha_text}
use microtensor_subnet.Base.Text.Split.{split}
use microtensor_subnet.Chain.Commitments.Digests.{
  CommitmentError, bad_arena, bad_user, bad_sha, negative_fee, bad_profile, separator, payload_of,
  to_option, put_some,
}

abbrev pub submission_tag : String
submission_tag = "mt2"

abbrev pub profile_submission_tag : String
profile_submission_tag = "mt4"

-- core/profiles.py
abbrev pub profiles : List String
profiles = "P1" ∷ "P2" ∷ "P3" ∷ "K" ∷ "C" ∷ []

unfoldable pub is_profile : String → Bool
is_profile name = contains name profiles

-- `_check_profile` raises if this holds
unfoldable pub is_unknown_profile : String → Bool
unfolding is_profile
is_unknown_profile profile = not (is_blank profile) && not (is_profile profile)

pub record SubmissionCommitment : Type 0 where
  pub arena_id : String
  pub hf_user : String
  pub artifact_sha : String
  pub fee_block : ℤ
  pub fee_index : ℤ
  pub profile : String

-- `SubmissionCommitment.__post_init__`
unfoldable pub checked_submission :
    SubmissionCommitment → Result CommitmentError SubmissionCommitment
unfolding is_unknown_profile
checked_submission c = do
  raise_if (not (arena_text c.arena_id)) bad_arena
  raise_if (not (hf_user_text c.hf_user)) bad_user
  raise_if (not (git_sha_text c.artifact_sha)) bad_sha
  raise_if (ltb_ℤ c.fee_block (pos 0) || ltb_ℤ c.fee_index (pos 0)) negative_fee
  raise_if (is_unknown_profile c.profile) bad_profile
  ok c

abbrev pub has_profile : SubmissionCommitment → Bool
has_profile c = not (is_blank c.profile)

unfoldable pub artifact_repo : SubmissionCommitment → String
artifact_repo c = c.hf_user ++ "/" ++ "microtensor_" ++ c.arena_id

unfoldable pub slm_repo : SubmissionCommitment → String
slm_repo c = c.hf_user ++ "/" ++ "mt_slm_" ++ c.arena_id

module _ (b : Builtins) where
  open b use {lower, show_int, read_int}

  unfoldable pub fee_reference : SubmissionCommitment → String
  fee_reference c = show_int c.fee_block ++ ":" ++ show_int c.fee_index

  abbrev pub submission_fields : SubmissionCommitment → List String
  submission_fields c =
      if has_profile c
      then profile_submission_tag
        ∷ c.arena_id
        ∷ c.hf_user
        ∷ c.artifact_sha
        ∷ c.profile
        ∷ show_int c.fee_block
        ∷ show_int c.fee_index
        ∷ []
      else submission_tag
        ∷ c.arena_id
        ∷ c.hf_user
        ∷ c.artifact_sha
        ∷ show_int c.fee_block
        ∷ show_int c.fee_index
        ∷ []

  -- `SubmissionCommitment.encode`
  unfoldable pub encode_submission : SubmissionCommitment → Result CommitmentError String
  unfolding payload_of
  encode_submission c = payload_of (submission_fields c)

  -- cls(...), with ValueError and CommitmentError as `none`
  unfoldable pub submission_of :
      String → String → String → String → String → String → Option SubmissionCommitment
  unfolding checked_submission
  submission_of arena_id hf_user artifact_sha profile fee_block fee_index =
      elim (read_int fee_block) [
        | none ↦ none
        | some block ↦ elim (read_int fee_index) [
          | none ↦ none
          | some index ↦ to_option (
              checked_submission (record {
                arena_id = arena_id;
                hf_user = hf_user;
                artifact_sha = lower artifact_sha;
                fee_block = block;
                fee_index = index;
                profile = profile;
              }))
        ]
      ]

  unfoldable pub submission_of_parts : List String → Option SubmissionCommitment
  unfolding submission_of
  submission_of_parts (tag ∷ arena ∷ user ∷ sha ∷ block ∷ index ∷ []) =
      if tag == submission_tag then submission_of arena user sha "" block index else none
  submission_of_parts (tag ∷ arena ∷ user ∷ sha ∷ profile ∷ block ∷ index ∷ []) =
      if tag == profile_submission_tag
      then submission_of arena user sha profile block index
      else none
  submission_of_parts other = none

  -- `SubmissionCommitment.decode`
  unfoldable pub decode_submission : String → Option SubmissionCommitment
  unfolding submission_of_parts
  decode_submission raw =
      if is_blank raw then none else submission_of_parts (split separator (strip raw))

  unfoldable pub decode_submissions_from :
      Dict String → Dict SubmissionCommitment → Dict SubmissionCommitment
  unfolding decode_submission
  decode_submissions_from [] decoded = decoded
  decode_submissions_from ((hotkey, raw) ∷ rest) decoded =
      decode_submissions_from rest (put_some hotkey (decode_submission raw) decoded)

  unfoldable pub decode_submissions : Dict String → Dict SubmissionCommitment
  unfolding decode_submissions_from
  decode_submissions raw_by_hotkey = decode_submissions_from raw_by_hotkey []
