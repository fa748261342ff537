-- ===== src/Chain/Commitments/Digests.antt =====
-- chain/commitment.py: errors, `short_digest` and `digest_matches`, and what the four kinds of
-- commitment share.

use Prim.Native.Char.{Char, code}
use Prim.Native.String.{len, count}
use microtensor_subnet.Base.{
  ℕ, ◌≡◌, sym, subst, String, Bool, false, not, List, Option, none, some, Result, ok, raised, ◌>>◌,
  raise_if, ltb, eqb, ◌||◌, ◌==◌, if◌then◌else◌, arith,
}
use microtensor_subnet.Base.Int.{ℤ, pos}
use microtensor_subnet.Base.Dict.{Dict, put}
use microtensor_subnet.Base.Text.{is_digit, first_chars, strip}
use microtensor_subnet.Base.Text.Builtins.{Builtins}
use microtensor_subnet.Base.Text.Patterns.{hex_text}
use microtensor_subnet.Base.Text.Split.{join, Lacks, IsTrimmed, every-IsTrimmed, every_mono}

pub data CommitmentError : Type 0 where
  malformed_digest negative_round bad_name short_hex unknown_scheme no_locator holds_separator
        over_limit bad_key bad_hash bad_arena bad_user bad_sha negative_fee bad_profile bad_salt :
      CommitmentError

-- MAX_COMMITMENT_BYTES
abbrev pub max_commitment_bytes : ℕ
max_commitment_bytes = 128

abbrev pub separator : Char
separator = "|"

-- The character is not the separator.
abbrev pub is_clear : ℕ → Bool
is_clear n = not (eqb n (code separator))

-- `text[len(prefix):] if text.startswith(prefix) else text`
unfoldable pub without_prefix : String → String → String → String
without_prefix whole String.[] s = s
without_prefix whole (String.◌∷◌ c p) String.[] = whole
without_prefix whole (String.◌∷◌ c p) (String.◌∷◌ d s) =
    let rest = without_prefix whole p s in if eqb (code c) (code d) then rest else whole

-- The joined fields, if they fit into a commitment on chain.
unfoldable pub payload_of : List String → Result CommitmentError String
payload_of fields = do
  raise_if (ltb max_commitment_bytes (len (join separator fields))) over_limit
  ok (join separator fields)

abbrev pub to_option {ℓ} : {A : Type ℓ} → Result CommitmentError A → Option A
to_option (ok a) = some a
to_option (raised e) = none

abbrev pub put_some {ℓ} : {A : Type ℓ} → String → Option A → Dict A → Dict A
put_some key none found = found
put_some key (some value) found = put key value found

module _ (b : Builtins) where
  open b use {lower, show_int, show_int_digits, show_int_filled, read_int, read_int-show_int}

  unfoldable pub short_digest : String → ℕ → Result CommitmentError String
  unfolding without_prefix
  short_digest digest chars =
      let body = lower (strip (without_prefix digest "sha256:" digest)) in
      do
        raise_if (not (hex_text body) || ltb (count body) chars) malformed_digest
        ok (first_chars chars body)

  unfoldable pub digest_matches : String → String → Bool
  unfolding short_digest
  digest_matches short digest = elim (short_digest digest (count short)) [
    | ok found ↦ found == lower (strip short)
    | raised e ↦ false
  ]

  -- A printed number can be a field, also the last one, and is read back.
  pub show_int-Lacks : (n : ℕ) → Lacks separator (show_int (pos n))
  show_int-Lacks n =
      every_mono is_digit is_clear (show_int (pos n)) (λ d h. ground arith) (show_int_digits n)

  pub show_int-IsTrimmed : (n : ℕ) → IsTrimmed (show_int (pos n))
  show_int-IsTrimmed n =
      every-IsTrimmed is_digit (show_int (pos n)) (λ d h. ground arith) (show_int_digits n)
        (show_int_filled n)

  pub number-Lacks : {x : ℤ} {n : ℕ} → x ≡ pos n → Lacks separator (show_int x)
  number-Lacks {n = n} e = subst (λ y. Lacks separator (show_int y)) (sym e) (show_int-Lacks n)

  pub number-IsTrimmed : {x : ℤ} {n : ℕ} → x ≡ pos n → IsTrimmed (show_int x)
  number-IsTrimmed {n = n} e = subst (λ y. IsTrimmed (show_int y)) (sym e) (show_int-IsTrimmed n)

  pub number_back : {x : ℤ} {n : ℕ} → x ≡ pos n → read_int (show_int x) ≡ some x
  number_back {n = n} e = subst (λ y. read_int (show_int y) ≡ some y) (sym e) (read_int-show_int n)
