-- ===== src/Chain/Commitments/Reveals/RoundTrip.antt =====
-- What is encoded is decoded to the same reveal.
use Prim.Native.String.{len}
use microtensor_subnet.Base.{
  ℕ, ◌≡◌, refl, ap, String, true, false, List, [], ◌∷◌, some, ok, ltb, raise_if, arith,
  if◌then◌else◌, Bool-cases, inl, inr, All, >>=-eq-ok, ok-injective, subst,
}
use microtensor_subnet.Base.Int.{ℤ, pos, negsuc}
use microtensor_subnet.Base.Text.{is_blank, is_plain}
use microtensor_subnet.Base.Text.Builtins.{Builtins}
use microtensor_subnet.Base.Text.Patterns.{hex_text, hex_text-every}
use microtensor_subnet.Base.Text.Split.{join, Lacks, split-strip-join, IsTrimmed, last_part}
use microtensor_subnet.Chain.Commitments.Digests.{
  max_commitment_bytes, separator, to_option, over_limit, payload_of, number-Lacks, number_back,
  is_clear,
}
use microtensor_subnet.Chain.Commitments.Submissions.RoundTrip.{blank-eq}
use microtensor_subnet.Chain.Commitments.Reveals.{
  Reveal, checked_reveal, encode_reveal, reveal_of, reveal_of_parts, reveal_tag, decode_reveal,
  reveal_fields,
}

-- What the checks of a reveal establish.
pub record IsValid (c : Reveal) : Type 0 where
  pub index : ℕ
  pub index_is : c.round_index ≡ pos index
  pub digest : hex_text c.manifest_digest ≡ true
  pub key : hex_text c.key ≡ true
  pub hash : is_blank c.commitment_hash ≡ false → hex_text c.commitment_hash ≡ true

pub checked_reveal-IsValid :
    (c : Reveal) {d : Reveal} → checked_reveal c ≡ ok d → IsValid c × (d ≡ c)
unfolding checked_reveal
checked_reveal-IsValid c {d} h = by_sign c.round_index refl
  where
    by_sign : (x : ℤ) → c.round_index ≡ x → IsValid c × (d ≡ c)
    by_sign (pos x) e = (
      record {
        index = x;
        index_is = e;
        digest = ground arith;
        key = ground arith;
        hash = λ k. ground arith;
      },
      ground arith,
    )
    by_sign (negsuc x) e = absurd (ground (arith, e))

module _ (b : Builtins) (c : Reveal) (v : IsValid c) where
  open b use {lower, show_int, lower_plain}

  hex-lower : (s : String) → hex_text s ≡ true → lower s ≡ s
  hex-lower s h = lower_plain s (hex_text-every is_plain refl (λ n k. ground arith) s h)

  hex-Lacks : (s : String) → hex_text s ≡ true → Lacks separator s
  hex-Lacks s h = hex_text-every is_clear refl (λ n k. ground arith) s h

  reveal_of_fields :
      checked_reveal c ≡ ok c
      → reveal_of b (show_int c.round_index) c.manifest_digest c.key c.commitment_hash ≡ some c
  unfolding reveal_of
  reveal_of_fields h =
      rw
        (
          reveal_of,
          number_back b v.index_is,
          hex-lower c.manifest_digest v.digest,
          hex-lower c.key v.key,
        )
        (ap to_option h)

  fields-All :
      (more : List String)
      → All (Lacks separator) more
      → All
          (Lacks separator)
          (reveal_tag ∷ show_int c.round_index ∷ c.manifest_digest ∷ c.key ∷ more)
  fields-All more h = (
    refl,
    (number-Lacks b v.index_is, (hex-Lacks c.manifest_digest v.digest, (hex-Lacks c.key v.key, h))),
  )

  short_decodes :
      checked_reveal c ≡ ok c
      → is_blank c.commitment_hash ≡ true
      → IsTrimmed (last_part "" (reveal_fields b c))
      → decode_reveal b (join separator (reveal_fields b c)) ≡ some c
  unfolding decode_reveal reveal_of_parts
  short_decodes h e trimmed =
      let (filled, parts) =
        split-strip-join separator reveal_tag (show_int c.round_index)
          (c.manifest_digest ∷ c.key ∷ []) refl
          (subst (λ s. IsTrimmed (last_part c.key (if s then [] else c.commitment_hash ∷ []))) e
            trimmed)
          (fields-All [] tt) in
      rw (e, if◌then◌else◌, filled, parts)
        (subst (λ s. reveal_of b (show_int c.round_index) c.manifest_digest c.key s ≡ some c)
          (blank-eq c.commitment_hash e) (reveal_of_fields h))

  long_decodes :
      checked_reveal c ≡ ok c
      → is_blank c.commitment_hash ≡ false
      → IsTrimmed (last_part "" (reveal_fields b c))
      → decode_reveal b (join separator (reveal_fields b c)) ≡ some c
  unfolding decode_reveal reveal_of_parts
  long_decodes h e trimmed =
      let (filled, parts) =
        split-strip-join separator reveal_tag (show_int c.round_index)
          (c.manifest_digest ∷ c.key ∷ c.commitment_hash ∷ []) refl
          (subst (λ s. IsTrimmed (last_part c.key (if s then [] else c.commitment_hash ∷ []))) e
            trimmed)
          (fields-All (c.commitment_hash ∷ []) (hex-Lacks c.commitment_hash (v.hash e), tt)) in
      rw (e, if◌then◌else◌, filled, parts, hex-lower c.commitment_hash (v.hash e))
        (reveal_of_fields h)

-- A reveal that passes its checks and fits on chain is decoded to the same reveal, if its last field,
-- which is its key or the hash behind it, has no space at its end.
pub decode_reveal-encode_reveal :
    (b : Builtins) (c : Reveal) {payload : String}
    → checked_reveal c ≡ ok c
    → encode_reveal b c ≡ ok payload
    → IsTrimmed (last_part "" (reveal_fields b c))
    → decode_reveal b payload ≡ some c
unfolding encode_reveal payload_of
decode_reveal-encode_reveal b c h e trimmed =
    let (v, _) = checked_reveal-IsValid c h in
    let (_, _, fits) =
      >>=-eq-ok
        (raise_if (ltb max_commitment_bytes (len (join separator (reveal_fields b c)))) over_limit)
        (λ u. ok (join separator (reveal_fields b c))) e in
    subst (λ p. decode_reveal b p ≡ some c) (ok-injective fits)
      (elim (Bool-cases (is_blank c.commitment_hash)) [
        | inl blank ↦ short_decodes b c v h blank trimmed
        | inr filled ↦ long_decodes b c v h filled trimmed
      ])
