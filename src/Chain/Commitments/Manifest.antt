-- ===== src/Chain/Commitments/Manifest.antt =====
-- chain/commitment.py, `Commitment`: an artifact of a round, by the digest of its manifest.
pub mod RoundTrip
use Prim.Native.Char.{Char, code}
use Prim.Native.String.{len, count}
use Prim.Native.String
use microtensor_subnet.Base.{
  ℕ, String, Bool, true, false, not, List, [], ◌∷◌, Option, none, some, Result, ok, raised, ◌>>=◌,
  ◌>>◌, raise_if, ltb, eqb, ◌||◌, ◌==◌, if◌then◌else◌, contains,
}
use microtensor_subnet.Base.Int.{ℤ, pos, ltb_ℤ}
use microtensor_subnet.Base.Dict.{Dict}
use microtensor_subnet.Base.Text.{is_blank, strip, every}
use microtensor_subnet.Base.Text.Builtins.{Builtins}
use microtensor_subnet.Base.Text.Patterns.{name_text, hex_text}
use microtensor_subnet.Base.Text.Split.{split, join}
use microtensor_subnet.Chain.Commitments.Digests.{
  CommitmentError, negative_round, bad_name, short_hex, unknown_scheme, no_locator, holds_separator,
  separator, to_option, put_some, is_clear, payload_of, digest_matches, short_digest,
}

abbrev pub commitment_tag : String
commitment_tag = "mt1"

abbrev pub sealed_mark : String
sealed_mark = "k"

abbrev pub short_digest_chars : ℕ
short_digest_chars = 32

abbrev pub source_schemes : List String
source_schemes = "hf" ∷ "s3" ∷ "r2" ∷ "https" ∷ "ipfs" ∷ []

-- s.partition(sep)[0]
unfoldable pub before : Char → String → String
before sep String.[] = String.[]
before sep (String.◌∷◌ c s) =
    let rest = before sep s in if eqb (code c) (code sep) then String.[] else String.◌∷◌ c rest

-- s.partition(sep)[2]
unfoldable pub after : Char → String → String
after sep String.[] = String.[]
after sep (String.◌∷◌ c s) = let rest = after sep s in if eqb (code c) (code sep) then s else rest

pub record Commitment : Type 0 where
  pub round_index : ℤ
  pub track : String
  pub hardware_class : String
  pub manifest_digest : String
  pub source : String
  pub sealed : Bool

-- `Commitment.__post_init__`
unfoldable pub checked_commitment : Commitment → Result CommitmentError Commitment
unfolding before after
checked_commitment c = do
  raise_if (ltb_ℤ c.round_index (pos 0)) negative_round
  raise_if (not (name_text c.track)) bad_name
  raise_if (not (name_text c.hardware_class)) bad_name
  raise_if (not (hex_text c.manifest_digest) || ltb (count c.manifest_digest) 16) short_hex
  raise_if (not (contains (before ":" c.source) source_schemes)) unknown_scheme
  raise_if (is_blank (after ":" c.source)) no_locator
  raise_if (not (every is_clear c.source)) holds_separator
  ok c

-- `Commitment.competition`
abbrev pub competition : Commitment → String × String
competition c = (c.track, c.hardware_class)

module _ (b : Builtins) where
  open b use {lower, show_int, read_int}

  abbrev pub commitment_fields : Commitment → List String
  commitment_fields c =
      commitment_tag
      ∷ show_int c.round_index
      ∷ c.track
      ∷ c.hardware_class
      ∷ c.manifest_digest
      ∷ c.source
      ∷ (if c.sealed then sealed_mark ∷ [] else [])

  -- `Commitment.encode`
  unfoldable pub encode_commitment : Commitment → Result CommitmentError String
  unfolding payload_of
  encode_commitment c = payload_of (commitment_fields c)

  -- cls(...), with ValueError and CommitmentError as `none`
  unfoldable pub commitment_of :
      String → String → String → String → String → Bool → Option Commitment
  unfolding checked_commitment
  commitment_of round_index track hardware_class manifest_digest source sealed =
      elim (read_int round_index) [
        | none ↦ none
        | some index ↦ to_option (
            checked_commitment (record {
              round_index = index;
              track = track;
              hardware_class = hardware_class;
              manifest_digest = lower manifest_digest;
              source = source;
              sealed = sealed;
            }))
      ]

  unfoldable pub commitment_of_parts : List String → Option Commitment
  unfolding commitment_of
  commitment_of_parts (tag ∷ index ∷ track ∷ hardware ∷ digest ∷ source ∷ []) =
      if tag == commitment_tag then commitment_of index track hardware digest source false else none
  commitment_of_parts (tag ∷ index ∷ track ∷ hardware ∷ digest ∷ source ∷ mark ∷ []) =
      if tag == commitment_tag
      then (if mark == sealed_mark
          then commitment_of index track hardware digest source true
          else none)
      else none
  commitment_of_parts other = none

  -- `Commitment.decode`
  unfoldable pub decode_commitment : String → Option Commitment
  unfolding commitment_of_parts
  decode_commitment raw =
      if is_blank raw then none else commitment_of_parts (split separator (strip raw))

  -- `Commitment.covers`
  unfoldable pub covers : Commitment → String → Bool
  unfolding digest_matches
  covers c digest = digest_matches b c.manifest_digest digest

  unfoldable pub build_commitment :
      ℤ → String → String → String → String → Bool → Result CommitmentError Commitment
  unfolding short_digest checked_commitment
  build_commitment round_index track hardware_class manifest_digest source sealed = do
    short ← short_digest b manifest_digest short_digest_chars
    checked_commitment (record {
      round_index = round_index;
      track = track;
      hardware_class = hardware_class;
      manifest_digest = short;
      source = source;
      sealed = sealed;
    })

  -- `commitment_hash`, where `digest_bytes` is the digest of a text in UTF-8
  unfoldable pub commitment_hash : (String → String) → Commitment → Result CommitmentError String
  unfolding encode_commitment short_digest
  commitment_hash digest_bytes c = do
    payload ← encode_commitment c
    short_digest b (digest_bytes payload) 16

  unfoldable pub decode_all_from : Dict String → Dict Commitment → Dict Commitment
  unfolding decode_commitment
  decode_all_from [] decoded = decoded
  decode_all_from ((hotkey, raw) ∷ rest) decoded =
      decode_all_from rest (put_some hotkey (decode_commitment raw) decoded)

  unfoldable pub decode_all : Dict String → Dict Commitment
  unfolding decode_all_from
  decode_all raw_by_hotkey = decode_all_from raw_by_hotkey []
