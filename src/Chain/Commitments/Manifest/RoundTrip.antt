-- ===== src/Chain/Commitments/Manifest/RoundTrip.antt =====
-- What is encoded is decoded to the same commitment.
use Prim.Native.String.{len}
use microtensor_subnet.Base.{
  ℕ, ◌≡◌, refl, ap, String, true, false, List, [], ◌∷◌, some, ok, ltb, raise_if, arith,
  if◌then◌else◌, Bool-cases, inl, inr, All, >>=-eq-ok, ok-injective, subst, ◌∙◌,
}
use microtensor_subnet.Base.Int.{ℤ, pos, negsuc}
use microtensor_subnet.Base.Text.{is_plain, rstrip}
use microtensor_subnet.Base.Text.Builtins.{Builtins}
use microtensor_subnet.Base.Text.Patterns.{name_text, hex_text, name_text-every, hex_text-every}
use microtensor_subnet.Base.Text.Split.{join, Lacks, split-strip-join, IsTrimmed, last_part}
use microtensor_subnet.Chain.Commitments.Digests.{
  max_commitment_bytes, separator, to_option, over_limit, payload_of, number-Lacks, number_back,
  is_clear,
}
use microtensor_subnet.Chain.Commitments.Manifest.{
  Commitment, checked_commitment, encode_commitment, commitment_of, commitment_of_parts,
  commitment_tag, sealed_mark, decode_commitment, commitment_fields,
}

-- What the checks of a commitment establish.
pub record IsValid (c : Commitment) : Type 0 where
  pub index : ℕ
  pub index_is : c.round_index ≡ pos index
  pub track_name : name_text c.track ≡ true
  pub class_name : name_text c.hardware_class ≡ true
  pub digest : hex_text c.manifest_digest ≡ true
  pub source : Lacks separator c.source

pub checked_commitment-IsValid :
    (c : Commitment) {d : Commitment} → checked_commitment c ≡ ok d → IsValid c × (d ≡ c)
unfolding checked_commitment
checked_commitment-IsValid c {d} h = by_sign c.round_index refl
  where
    by_sign : (x : ℤ) → c.round_index ≡ x → IsValid c × (d ≡ c)
    by_sign (pos x) e = (
      record {
        index = x;
        index_is = e;
        track_name = ground arith;
        class_name = ground arith;
        digest = ground arith;
        source = ground arith;
      },
      ground arith,
    )
    by_sign (negsuc x) e = absurd (ground (arith, e))

module _ (b : Builtins) (c : Commitment) (v : IsValid c) where
  open b use {lower, show_int, lower_plain}

  digest_lower : lower c.manifest_digest ≡ c.manifest_digest
  digest_lower =
      lower_plain c.manifest_digest
        (hex_text-every is_plain refl (λ n k. ground arith) c.manifest_digest v.digest)

  commitment_of_fields :
      checked_commitment c ≡ ok c
      → commitment_of b
          (show_int c.round_index)
          c.track
          c.hardware_class
          c.manifest_digest
          c.source
          c.sealed
        ≡ some c
  unfolding commitment_of
  commitment_of_fields h =
      rw (commitment_of, number_back b v.index_is, digest_lower) (ap to_option h)

  fields-All :
      (mark : List String)
      → All (Lacks separator) mark
      → All (Lacks separator) (
          commitment_tag
          ∷ show_int c.round_index
          ∷ c.track
          ∷ c.hardware_class
          ∷ c.manifest_digest
          ∷ c.source
          ∷ mark)
  fields-All mark h = (
    refl,
    (
      number-Lacks b v.index_is,
      (
        name_text-every is_clear refl (λ n k. ground arith) c.track v.track_name,
        (
          name_text-every is_clear refl (λ n k. ground arith) c.hardware_class v.class_name,
          (
            hex_text-every is_clear refl (λ n k. ground arith) c.manifest_digest v.digest,
            (v.source, h),
          ),
        ),
      ),
    ),
  )

  open_decodes :
      c.sealed ≡ false
      → IsTrimmed (last_part "" (commitment_fields b c))
      → decode_commitment b (join separator (commitment_fields b c))
        ≡ commitment_of b
            (show_int c.round_index)
            c.track
            c.hardware_class
            c.manifest_digest
            c.source
            c.sealed
  unfolding decode_commitment commitment_of_parts
  open_decodes e trimmed =
      let (filled, parts) =
        split-strip-join separator commitment_tag (show_int c.round_index)
          (c.track ∷ c.hardware_class ∷ c.manifest_digest ∷ c.source ∷ []) refl
          (subst (λ s. IsTrimmed (last_part c.source (if s then sealed_mark ∷ [] else []))) e
            trimmed)
          (fields-All [] tt) in
      rw (e, if◌then◌else◌, filled, parts) refl

  sealed_decodes :
      c.sealed ≡ true
      → decode_commitment b (join separator (commitment_fields b c))
        ≡ commitment_of b
            (show_int c.round_index)
            c.track
            c.hardware_class
            c.manifest_digest
            c.source
            c.sealed
  unfolding decode_commitment commitment_of_parts rstrip
  sealed_decodes e =
      let (filled, parts) =
        split-strip-join separator commitment_tag (show_int c.round_index)
          (c.track ∷ c.hardware_class ∷ c.manifest_digest ∷ c.source ∷ sealed_mark ∷ []) refl
          (refl, refl) (fields-All (sealed_mark ∷ []) (refl, tt)) in
      rw (e, if◌then◌else◌, filled, parts) refl

-- A commitment that passes its checks and fits on chain is decoded to the same commitment, if its
-- last field, which is its source unless it is sealed, has no space at its end.
pub decode_commitment-encode_commitment :
    (b : Builtins) (c : Commitment) {payload : String}
    → checked_commitment c ≡ ok c
    → encode_commitment b c ≡ ok payload
    → IsTrimmed (last_part "" (commitment_fields b c))
    → decode_commitment b payload ≡ some c
unfolding encode_commitment payload_of
decode_commitment-encode_commitment b c h e trimmed =
    let (v, _) = checked_commitment-IsValid c h in
    let (_, _, fits) =
      >>=-eq-ok
        (raise_if (ltb max_commitment_bytes (len (join separator (commitment_fields b c))))
          over_limit)
        (λ u. ok (join separator (commitment_fields b c))) e in
    subst (λ p. decode_commitment b p ≡ some c) (ok-injective fits)
      (elim (Bool-cases c.sealed) [
        | inl sealed ↦ sealed_decodes b c v sealed ∙ commitment_of_fields b c v h
        | inr opened ↦ open_decodes b c v opened trimmed ∙ commitment_of_fields b c v h
      ])
