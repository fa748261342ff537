-- ===== src/Chain/Commitments/Submissions/RoundTrip.antt =====
-- What is encoded is decoded to the same submission.
use Prim.Native.String.{len}
use microtensor_subnet.Base.{
  subst, eq_iff, contains, ℕ, ◌≡◌, refl, ap, String, true, false, List, [], ◌∷◌, some, ok,
  >>=-eq-ok, ok-injective, raise_if, arith, ltb, if◌then◌else◌, Bool-cases, inl, inr, All, ◌==◌,
}
use microtensor_subnet.Base.Int.{ℤ, pos, negsuc}
use microtensor_subnet.Base.Text.{is_blank, is_plain}
use microtensor_subnet.Base.Text.Builtins.{Builtins}
use microtensor_subnet.Base.Text.Patterns.{
  arena_text, hf_user_text, git_sha_text, arena_text-every, hf_user_text-every, git_sha_text-every,
}
use microtensor_subnet.Base.Text.Split.{join, Lacks, split-strip-join}
use microtensor_subnet.Chain.Commitments.Digests.{
  max_commitment_bytes, separator, payload_of, to_option, number-Lacks, number-IsTrimmed,
  number_back, over_limit, is_clear,
}
use microtensor_subnet.Chain.Commitments.Submissions.{
  SubmissionCommitment, checked_submission, is_unknown_profile, is_profile, profiles,
  encode_submission, submission_of, submission_of_parts, submission_tag, profile_submission_tag,
  decode_submission, submission_fields,
}

-- What the checks of a submission establish.
pub record IsValid (c : SubmissionCommitment) : Type 0 where
  pub block : ℕ
  pub index : ℕ
  pub block_is : c.fee_block ≡ pos block
  pub index_is : c.fee_index ≡ pos index
  pub arena : arena_text c.arena_id ≡ true
  pub user : hf_user_text c.hf_user ≡ true
  pub sha : git_sha_text c.artifact_sha ≡ true
  pub known : is_unknown_profile c.profile ≡ false

pub checked_submission-IsValid :
    (c : SubmissionCommitment) {d : SubmissionCommitment}
    → checked_submission c ≡ ok d
    → IsValid c × (d ≡ c)
unfolding checked_submission
checked_submission-IsValid c {d} h = by_signs c.fee_block c.fee_index refl refl
  where
    by_signs : (x y : ℤ) → c.fee_block ≡ x → c.fee_index ≡ y → IsValid c × (d ≡ c)
    by_signs (pos x) (pos y) e k = (
      record {
        block = x;
        index = y;
        block_is = e;
        index_is = k;
        arena = ground arith;
        user = ground arith;
        sha = ground arith;
        known = ground arith;
      },
      ground arith,
    )
    by_signs (negsuc x) y e k = absurd (ground (arith, e))
    by_signs (pos x) (negsuc y) e k = absurd (ground (arith, e, k))

contains-All :
    (P : String → Type 0) (k : String) (xs : List String) → All P xs → contains k xs ≡ true → P k
contains-All P k [] all h = absurd (cc)
contains-All P k (x ∷ xs) (p, all) h = elim (Bool-cases (x == k)) [
  | inl e ↦ subst P ((eq_iff x k).0 e) p
  | inr e ↦ contains-All P k xs all (ground arith)
]

pub profile-Lacks : (s : String) → is_unknown_profile s ≡ false → Lacks separator s
unfolding is_unknown_profile is_profile
profile-Lacks String.[] h = refl
profile-Lacks (String.◌∷◌ x s) h =
    contains-All (Lacks separator) (String.◌∷◌ x s) profiles
      (refl, (refl, (refl, (refl, (refl, tt))))) (ground arith)

pub blank-eq : (s : String) → is_blank s ≡ true → s ≡ ""
blank-eq String.[] h = refl
blank-eq (String.◌∷◌ x s) h = absurd (cc)

module _ (b : Builtins) (c : SubmissionCommitment) (v : IsValid c) where
  open b use {lower, show_int, read_int, lower_plain, read_int-show_int}

  arena_clear : Lacks separator c.arena_id
  arena_clear = arena_text-every is_clear refl (λ n k. ground arith) c.arena_id v.arena

  user_clear : Lacks separator c.hf_user
  user_clear = hf_user_text-every is_clear refl (λ n k. ground arith) c.hf_user v.user

  sha_clear : Lacks separator c.artifact_sha
  sha_clear = git_sha_text-every is_clear refl (λ n k. ground arith) c.artifact_sha v.sha

  block_clear : Lacks separator (show_int c.fee_block)
  block_clear = number-Lacks b v.block_is

  index_clear : Lacks separator (show_int c.fee_index)
  index_clear = number-Lacks b v.index_is

  sha_lower : lower c.artifact_sha ≡ c.artifact_sha
  sha_lower =
      lower_plain c.artifact_sha
        (git_sha_text-every is_plain refl (λ n k. ground arith) c.artifact_sha v.sha)

  submission_of_fields :
      checked_submission c ≡ ok c
      → submission_of b c.arena_id c.hf_user c.artifact_sha c.profile
          (show_int c.fee_block)
          (show_int c.fee_index)
        ≡ some c
  unfolding submission_of
  submission_of_fields h =
      rw (submission_of, number_back b v.block_is, number_back b v.index_is, sha_lower)
        (ap to_option h)

  plain_decodes :
      checked_submission c ≡ ok c
      → is_blank c.profile ≡ true
      → decode_submission b (join separator (submission_fields b c)) ≡ some c
  unfolding decode_submission submission_of_parts
  plain_decodes h e =
      let (filled, parts) =
        split-strip-join separator submission_tag c.arena_id
          (c.hf_user ∷ c.artifact_sha ∷ show_int c.fee_block ∷ show_int c.fee_index ∷ []) refl
          (number-IsTrimmed b v.index_is)
          (refl, (arena_clear, (user_clear, (sha_clear, (block_clear, (index_clear, tt)))))) in
      rw (e, if◌then◌else◌, filled, parts)
        (subst
          (λ p.
            submission_of b c.arena_id c.hf_user c.artifact_sha p (show_int c.fee_block)
              (show_int c.fee_index)
            ≡ some c)
          (blank-eq c.profile e) (submission_of_fields h))

  profile_decodes :
      checked_submission c ≡ ok c
      → is_blank c.profile ≡ false
      → decode_submission b (join separator (submission_fields b c)) ≡ some c
  unfolding decode_submission submission_of_parts
  profile_decodes h e =
      let (filled, parts) =
        split-strip-join separator profile_submission_tag c.arena_id
          (c.hf_user
            ∷ c.artifact_sha
            ∷ c.profile
            ∷ show_int c.fee_block
            ∷ show_int c.fee_index
            ∷ [])
          refl (number-IsTrimmed b v.index_is)
          (
            refl,
            (
              arena_clear,
              (
                user_clear,
                (sha_clear, (profile-Lacks c.profile v.known, (block_clear, (index_clear, tt)))),
              ),
            ),
          ) in
      rw (e, if◌then◌else◌, filled, parts) (submission_of_fields h)

-- Whatever a valid submission encodes to is decoded to the same submission.
pub decode_submission-encode_submission :
    (b : Builtins) (c : SubmissionCommitment) {payload : String}
    → checked_submission c ≡ ok c
    → encode_submission b c ≡ ok payload
    → decode_submission b payload ≡ some c
unfolding encode_submission payload_of
decode_submission-encode_submission b c h e =
    let (v, _) = checked_submission-IsValid c h in
    let (_, _, fits) =
      >>=-eq-ok
        (raise_if (ltb max_commitment_bytes (len (join separator (submission_fields b c))))
          over_limit)
        (λ u. ok (join separator (submission_fields b c))) e in
    subst (λ p. decode_submission b p ≡ some c) (ok-injective fits)
      (elim (Bool-cases (is_blank c.profile)) [
        | inl blank ↦ plain_decodes b c v h blank
        | inr filled ↦ profile_decodes b c v h filled
      ])
