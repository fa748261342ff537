-- ===== src/Chain/Commitments/Reveals.antt =====
-- chain/commitment.py, `Reveal`: the key of a sealed artifact of a round.
pub mod RoundTrip
use Prim.Native.String.{count}
use microtensor_subnet.Base.{
  ℕ, String, Bool, true, false, not, List, [], ◌∷◌, Option, none, some, Result, ok, raised, ◌>>=◌,
  ◌>>◌, raise_if, ltb, eqb, ◌||◌, ◌&&◌, ◌==◌, if◌then◌else◌,
}
use microtensor_subnet.Base.Int.{ℤ, pos, ltb_ℤ}
use microtensor_subnet.Base.Text.{is_blank, strip}
use microtensor_subnet.Base.Text.Builtins.{Builtins}
use microtensor_subnet.Base.Text.Patterns.{hex_text}
use microtensor_subnet.Base.Text.Split.{split, join}
use microtensor_subnet.Chain.Commitments.Digests.{
  CommitmentError, negative_round, short_hex, bad_key, bad_hash, separator, to_option, payload_of,
}

abbrev pub reveal_tag : String
reveal_tag = "mtr"

pub record Reveal : Type 0 where
  pub round_index : ℤ
  pub manifest_digest : String
  pub key : String
  pub commitment_hash : String

-- `Reveal.__post_init__`
unfoldable pub checked_reveal : Reveal → Result CommitmentError Reveal
checked_reveal c = do
  raise_if (ltb_ℤ c.round_index (pos 0)) negative_round
  raise_if (not (hex_text c.manifest_digest) || ltb (count c.manifest_digest) 16) short_hex
  raise_if (not (hex_text c.key) || not (eqb (count c.key) 64)) bad_key
  raise_if
      (not (is_blank c.commitment_hash)
        && (not (hex_text c.commitment_hash) || not (eqb (count c.commitment_hash) 16)))
      bad_hash
  ok c

module _ (b : Builtins) where
  open b use {lower, show_int, read_int}

  abbrev pub reveal_fields : Reveal → List String
  reveal_fields c =
      reveal_tag
      ∷ show_int c.round_index
      ∷ c.manifest_digest
      ∷ c.key
      ∷ (if is_blank c.commitment_hash then [] else c.commitment_hash ∷ [])

  -- `Reveal.encode`
  unfoldable pub encode_reveal : Reveal → Result CommitmentError String
  unfolding payload_of
  encode_reveal c = payload_of (reveal_fields c)

  -- cls(...), with ValueError and CommitmentError as `none`
  unfoldable pub reveal_of : String → String → String → String → Option Reveal
  unfolding checked_reveal
  reveal_of round_index manifest_digest key commitment_hash = elim (read_int round_index) [
    | none ↦ none
    | some index ↦ to_option (
        checked_reveal (record {
          round_index = index;
          manifest_digest = lower manifest_digest;
          key = lower key;
          commitment_hash = commitment_hash;
        }))
  ]

  unfoldable pub reveal_of_parts : List String → Option Reveal
  unfolding reveal_of
  reveal_of_parts (tag ∷ index ∷ digest ∷ key ∷ []) =
      if tag == reveal_tag then reveal_of index digest key "" else none
  reveal_of_parts (tag ∷ index ∷ digest ∷ key ∷ hash ∷ []) =
      if tag == reveal_tag then reveal_of index digest key (lower hash) else none
  reveal_of_parts other = none

  -- `Reveal.decode`
  unfoldable pub decode_reveal : String → Option Reveal
  unfolding reveal_of_parts
  decode_reveal raw = if is_blank raw then none else reveal_of_parts (split separator (strip raw))
