-- ===== src/Chain/Commitments/Apart.antt =====
-- The four kinds of commitment are told apart by their tags.

use microtensor_subnet.Base.{
  ℕ, ◌≡◌, ap, ◌+◌, ◌≤◌, String, Bool, true, false, List, [], ◌∷◌, Option, none, some, arith, eq_iff,
  if◌then◌else◌, ◌==◌, ◌||◌,
}
use microtensor_subnet.Base.Text.{strip}
use microtensor_subnet.Base.Text.Builtins.{Builtins}
use microtensor_subnet.Base.Text.Split.{split}
use microtensor_subnet.Chain.Commitments.Digests.{separator}
use microtensor_subnet.Chain.Commitments.Manifest.{
  commitment_tag, commitment_of_parts, decode_commitment,
}
use microtensor_subnet.Chain.Commitments.Reveals.{reveal_tag, reveal_of_parts, decode_reveal}
use microtensor_subnet.Chain.Commitments.Submissions.{
  submission_tag, profile_submission_tag, submission_of_parts, decode_submission,
}
use microtensor_subnet.Chain.Commitments.Sealed.{
  sealed_tag, profile_sealed_tag, sealed_of_parts, decode_sealed_text,
}

abbrev is_some {ℓ} : {A : Type ℓ} → Option A → Bool
is_some none = false
is_some (some a) = true

abbrev counted : Bool → ℕ
counted true = 1
counted false = 0

-- Which kind of commitment begins with the tag, from 1; 0 is none.
unfoldable kind_of_tag : String → ℕ
kind_of_tag tag =
    if tag == commitment_tag
    then 1
    else (if tag == reveal_tag
        then 2
        else (if tag == submission_tag || tag == profile_submission_tag
            then 3
            else (if tag == sealed_tag || tag == profile_sealed_tag then 4 else 0)))

unfoldable kind_of : List String → ℕ
unfolding kind_of_tag
kind_of [] = 0
kind_of (tag ∷ parts) = kind_of_tag tag

kind_of-tag :
    (tag t : String) (parts : List String)
    → (tag == t) ≡ true
    → kind_of (tag ∷ parts) ≡ kind_of_tag t
unfolding kind_of
kind_of-tag tag t parts h = ap kind_of_tag ((eq_iff tag t).0 h)

module _ (b : Builtins) where
  commitment_kind :
      (parts : List String) → is_some (commitment_of_parts b parts) ≡ true → kind_of parts ≡ 1
  unfolding commitment_of_parts kind_of_tag
  commitment_kind [] h = absurd (cc)
  commitment_kind (a ∷ []) h = absurd (cc)
  commitment_kind (a ∷ c ∷ []) h = absurd (cc)
  commitment_kind (a ∷ c ∷ d ∷ []) h = absurd (cc)
  commitment_kind (a ∷ c ∷ d ∷ e ∷ []) h = absurd (cc)
  commitment_kind (a ∷ c ∷ d ∷ e ∷ f ∷ []) h = absurd (cc)
  commitment_kind (a ∷ c ∷ d ∷ e ∷ f ∷ g ∷ []) h =
      kind_of-tag a commitment_tag (c ∷ d ∷ e ∷ f ∷ g ∷ []) (ground arith)
  commitment_kind (a ∷ c ∷ d ∷ e ∷ f ∷ g ∷ i ∷ []) h =
      kind_of-tag a commitment_tag (c ∷ d ∷ e ∷ f ∷ g ∷ i ∷ []) (ground arith)
  commitment_kind (a ∷ c ∷ d ∷ e ∷ f ∷ g ∷ i ∷ j ∷ k) h = absurd (cc)

  reveal_kind : (parts : List String) → is_some (reveal_of_parts b parts) ≡ true → kind_of parts ≡ 2
  unfolding reveal_of_parts kind_of_tag
  reveal_kind [] h = absurd (cc)
  reveal_kind (a ∷ []) h = absurd (cc)
  reveal_kind (a ∷ c ∷ []) h = absurd (cc)
  reveal_kind (a ∷ c ∷ d ∷ []) h = absurd (cc)
  reveal_kind (a ∷ c ∷ d ∷ e ∷ []) h = kind_of-tag a reveal_tag (c ∷ d ∷ e ∷ []) (ground arith)
  reveal_kind (a ∷ c ∷ d ∷ e ∷ f ∷ []) h =
      kind_of-tag a reveal_tag (c ∷ d ∷ e ∷ f ∷ []) (ground arith)
  reveal_kind (a ∷ c ∷ d ∷ e ∷ f ∷ g ∷ k) h = absurd (cc)

  submission_kind :
      (parts : List String) → is_some (submission_of_parts b parts) ≡ true → kind_of parts ≡ 3
  unfolding submission_of_parts kind_of_tag
  submission_kind [] h = absurd (cc)
  submission_kind (a ∷ []) h = absurd (cc)
  submission_kind (a ∷ c ∷ []) h = absurd (cc)
  submission_kind (a ∷ c ∷ d ∷ []) h = absurd (cc)
  submission_kind (a ∷ c ∷ d ∷ e ∷ []) h = absurd (cc)
  submission_kind (a ∷ c ∷ d ∷ e ∷ f ∷ []) h = absurd (cc)
  submission_kind (a ∷ c ∷ d ∷ e ∷ f ∷ g ∷ []) h =
      kind_of-tag a submission_tag (c ∷ d ∷ e ∷ f ∷ g ∷ []) (ground arith)
  submission_kind (a ∷ c ∷ d ∷ e ∷ f ∷ g ∷ i ∷ []) h =
      kind_of-tag a profile_submission_tag (c ∷ d ∷ e ∷ f ∷ g ∷ i ∷ []) (ground arith)
  submission_kind (a ∷ c ∷ d ∷ e ∷ f ∷ g ∷ i ∷ j ∷ k) h = absurd (cc)

  sealed_kind : (parts : List String) → is_some (sealed_of_parts b parts) ≡ true → kind_of parts ≡ 4
  unfolding sealed_of_parts kind_of_tag
  sealed_kind [] h = absurd (cc)
  sealed_kind (a ∷ []) h = absurd (cc)
  sealed_kind (a ∷ c ∷ []) h = absurd (cc)
  sealed_kind (a ∷ c ∷ d ∷ []) h = absurd (cc)
  sealed_kind (a ∷ c ∷ d ∷ e ∷ []) h = absurd (cc)
  sealed_kind (a ∷ c ∷ d ∷ e ∷ f ∷ []) h =
      kind_of-tag a sealed_tag (c ∷ d ∷ e ∷ f ∷ []) (ground arith)
  sealed_kind (a ∷ c ∷ d ∷ e ∷ f ∷ g ∷ []) h =
      kind_of-tag a profile_sealed_tag (c ∷ d ∷ e ∷ f ∷ g ∷ []) (ground arith)
  sealed_kind (a ∷ c ∷ d ∷ e ∷ f ∷ g ∷ i ∷ k) h = absurd (cc)

-- How many of the four decoders read the text.
unfoldable pub readers : Builtins → String → ℕ
readers b raw =
    counted (is_some (decode_commitment b raw))
    + counted (is_some (decode_reveal b raw))
    + counted (is_some (decode_submission b raw))
    + counted (is_some (decode_sealed_text b raw))

-- Whatever the text on chain is, at most one of the four decoders reads it.
pub readers_le : (b : Builtins) (raw : String) → readers b raw ≤ 1
unfolding readers decode_commitment decode_reveal decode_submission decode_sealed_text
readers_le b raw = ground (
  arith,
  commitment_kind b (split separator (strip raw)),
  reveal_kind b (split separator (strip raw)),
  submission_kind b (split separator (strip raw)),
  sealed_kind b (split separator (strip raw)),
)
