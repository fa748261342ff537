-- ===== src/Chain/Commitments/Sealed/RoundTrip.antt =====
-- What is encoded is decoded to the same commitment.
use microtensor_subnet.Base.{
  subst, ℕ, ◌≡◌, refl, ap, true, false, [], ◌∷◌, some, ok, arith, if◌then◌else◌, Bool-cases, inl,
  inr,
}
use microtensor_subnet.Base.Int.{ℤ, pos, negsuc}
use microtensor_subnet.Base.Text.{is_blank, is_plain}
use microtensor_subnet.Base.Text.Builtins.{Builtins}
use microtensor_subnet.Base.Text.Patterns.{
  arena_text, digest_text, arena_text-every, digest_text-every,
}
use microtensor_subnet.Base.Text.Split.{join, Lacks, split-strip-join}
use microtensor_subnet.Chain.Commitments.Digests.{
  separator, to_option, number-Lacks, number-IsTrimmed, number_back, is_clear,
}
use microtensor_subnet.Chain.Commitments.Submissions.{is_unknown_profile}
use microtensor_subnet.Chain.Commitments.Submissions.RoundTrip.{profile-Lacks, blank-eq}
use microtensor_subnet.Chain.Commitments.Sealed.{
  SealedCommitment, checked_sealed, encode_sealed, sealed_of, sealed_of_parts, sealed_tag,
  profile_sealed_tag, decode_sealed_text, sealed_fields,
}

-- What the checks of a sealed commitment establish.
pub record IsSound (c : SealedCommitment) : Type 0 where
  pub block : ℕ
  pub index : ℕ
  pub block_is : c.fee_block ≡ pos block
  pub index_is : c.fee_index ≡ pos index
  pub arena : arena_text c.arena_id ≡ true
  pub hash : digest_text c.digest ≡ true
  pub known : is_unknown_profile c.profile ≡ false

pub checked_sealed-IsSound :
    (c : SealedCommitment) {d : SealedCommitment} → checked_sealed c ≡ ok d → IsSound c × (d ≡ c)
unfolding checked_sealed
checked_sealed-IsSound c {d} h = by_signs c.fee_block c.fee_index refl refl
  where
    by_signs : (x y : ℤ) → c.fee_block ≡ x → c.fee_index ≡ y → IsSound c × (d ≡ c)
    by_signs (pos x) (pos y) e k = (
      record {
        block = x;
        index = y;
        block_is = e;
        index_is = k;
        arena = ground arith;
        hash = ground arith;
        known = ground arith;
      },
      ground arith,
    )
    by_signs (negsuc x) y e k = absurd (ground (arith, e))
    by_signs (pos x) (negsuc y) e k = absurd (ground (arith, e, k))

module _ (b : Builtins) (c : SealedCommitment) (v : IsSound c) where
  open b use {lower, show_int, lower_plain}

  arena_clear : Lacks separator c.arena_id
  arena_clear = arena_text-every is_clear refl (λ n k. ground arith) c.arena_id v.arena

  digest_clear : Lacks separator c.digest
  digest_clear = digest_text-every is_clear refl (λ n k. ground arith) c.digest v.hash

  digest_lower : lower c.digest ≡ c.digest
  digest_lower =
      lower_plain c.digest (digest_text-every is_plain refl (λ n k. ground arith) c.digest v.hash)

  sealed_of_fields :
      checked_sealed c ≡ ok c
      → sealed_of b c.arena_id c.digest c.profile (show_int c.fee_block) (show_int c.fee_index)
        ≡ some c
  unfolding sealed_of
  sealed_of_fields h =
      rw (sealed_of, number_back b v.block_is, number_back b v.index_is, digest_lower)
        (ap to_option h)

  plain_decodes :
      checked_sealed c ≡ ok c
      → is_blank c.profile ≡ true
      → decode_sealed_text b (join separator (sealed_fields b c)) ≡ some c
  unfolding decode_sealed_text sealed_of_parts
  plain_decodes h e =
      let (filled, parts) =
        split-strip-join separator sealed_tag c.arena_id
          (c.digest ∷ show_int c.fee_block ∷ show_int c.fee_index ∷ []) refl
          (number-IsTrimmed b v.index_is)
          (
            refl,
            (
              arena_clear,
              (digest_clear, (number-Lacks b v.block_is, (number-Lacks b v.index_is, tt))),
            ),
          ) in
      rw (e, if◌then◌else◌, parts)
        (subst
          (λ p.
            sealed_of b c.arena_id c.digest p (show_int c.fee_block) (show_int c.fee_index)
            ≡ some c)
          (blank-eq c.profile e) (sealed_of_fields h))

  profile_decodes :
      checked_sealed c ≡ ok c
      → is_blank c.profile ≡ false
      → decode_sealed_text b (join separator (sealed_fields b c)) ≡ some c
  unfolding decode_sealed_text sealed_of_parts
  profile_decodes h e =
      let (filled, parts) =
        split-strip-join separator profile_sealed_tag c.arena_id
          (c.digest ∷ c.profile ∷ show_int c.fee_block ∷ show_int c.fee_index ∷ []) refl
          (number-IsTrimmed b v.index_is)
          (
            refl,
            (
              arena_clear,
              (
                digest_clear,
                (
                  profile-Lacks c.profile v.known,
                  (number-Lacks b v.block_is, (number-Lacks b v.index_is, tt)),
                ),
              ),
            ),
          ) in
      rw (e, if◌then◌else◌, parts) (sealed_of_fields h)

-- A sealed commitment that passes its checks is encoded to a text that is decoded to the same
-- commitment.
pub decode_sealed_text-encode_sealed :
    (b : Builtins) (c : SealedCommitment)
    → checked_sealed c ≡ ok c
    → decode_sealed_text b (encode_sealed b c) ≡ some c
unfolding encode_sealed
decode_sealed_text-encode_sealed b c h =
    let (v, _) = checked_sealed-IsSound c h in
    elim (Bool-cases (is_blank c.profile)) [
      | inl blank ↦ plain_decodes b c v h blank
      | inr filled ↦ profile_decodes b c v h filled
    ]
