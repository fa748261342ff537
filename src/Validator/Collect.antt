-- ===== src/Validator/Collect.antt =====
-- validator/collect.py: which commitments on chain are candidates in an arena, and whether the fee of
-- a candidate was paid. What the code asks of the chain is the record `Client`.
pub mod Fees
pub mod Chosen
pub mod Unsealed
pub mod Tests
use microtensor_subnet.Base.{
  ℕ, String, Bool, true, false, not, List, [], ◌∷◌, Option, none, some, Result, ok, raised, ◌>>=◌,
  ◌>>◌, raise_if, ltb, leb, eqb, ◌||◌, ◌&&◌, ◌==◌, if◌then◌else◌, text_le,
}
use microtensor_subnet.Base.Int.{ℤ, pos, negsuc}
use microtensor_subnet.Base.Dict.{Dict, get, get_or, put, has, keys}
use microtensor_subnet.Base.Sorting.{sort}
use microtensor_subnet.Base.Text.{is_blank}
use microtensor_subnet.Base.Text.Builtins.{Builtins}
use microtensor_subnet.Chain.Commitments.Digests.{CommitmentError}
use microtensor_subnet.Chain.Commitments.Submissions.{SubmissionCommitment, decode_submissions}
use microtensor_subnet.Chain.Commitments.Sealed.{SealedCommitment, unseal, matches, decode_sealed}

pub record Candidate : Type 0 where
  pub hotkey : String
  pub coldkey : String
  pub commitment : SubmissionCommitment
  pub commit_block : ℕ

-- chain/client.py, `TransferEvent`
pub record TransferEvent : Type 0 where
  pub payer : String
  pub recipient : String
  pub amount_rao : ℕ
  pub is_ok : Bool
  pub reason : String

-- The answers of the chain; `raised` in `transfer_at` is a ChainError with its text.
pub record Client : Type 0 where
  pub hotkeys : List String
  pub coldkeys : Dict String
  pub commitments : List String → Dict String
  pub commitment_blocks : List String → Dict ℕ
  pub transfer_at : ℤ → ℤ → Result String TransferEvent

-- What the code reads of an entry of the roster, where "" also stands for a missing value.
pub record Entry : Type 0 where
  pub reveal_state : String
  pub hf_user : String
  pub artifact_sha : String
  pub salt : String

-- The reasons for which a hotkey is dropped.
pub data Refusal : Type 0 where
  not_revealed not_matching committed_late off_roster fee_cited : Refusal
  invalid_reveal : CommitmentError → Refusal

abbrev pub Roster : Type 0
Roster = Option (Dict Entry)

abbrev pub entry_of : Roster → String → Entry
entry_of none hotkey = record { reveal_state = ""; hf_user = ""; artifact_sha = ""; salt = "" }
entry_of (some roster) hotkey =
    get_or hotkey (record { reveal_state = ""; hf_user = ""; artifact_sha = ""; salt = "" }) roster

abbrev pub is_off : Roster → String → Bool
is_off none hotkey = false
is_off (some roster) hotkey = not (has hotkey roster)

pub record Sifted : Type 0 where
  pub decoded : Dict SubmissionCommitment
  pub refused : Dict Refusal

abbrev pub or_invalid :
    Result CommitmentError SubmissionCommitment → Result Refusal SubmissionCommitment
or_invalid (ok c) = ok c
or_invalid (raised e) = raised (invalid_reveal e)

module _ (b : Builtins) (sha256 : String → String) where
  open b use {lower}

  -- The artifact that an entry of the roster reveals, or why there is none.
  unfoldable pub revealed : Entry → SealedCommitment → Result Refusal SubmissionCommitment
  unfolding matches unseal
  revealed entry sealed = do
    raise_if (not (entry.reveal_state == "unsealed")) not_revealed
    raise_if (not (matches b sha256 sealed entry.hf_user (lower entry.artifact_sha) entry.salt))
        not_matching
    or_invalid (unseal sealed entry.hf_user (lower entry.artifact_sha))

  abbrev pub sifted : Bool → String → Result Refusal SubmissionCommitment → Sifted → Sifted
  sifted is_ours hotkey (ok c) s = record s { decoded = put hotkey c s.decoded }
  sifted is_ours hotkey (raised why) s =
      if is_ours then record s { refused = put hotkey why s.refused } else s

  -- the loop over the sealed commitments
  unfoldable pub sift : String → Roster → Dict SealedCommitment → Sifted → Sifted
  unfolding revealed
  sift arena_id roster [] s = s
  sift arena_id roster ((hotkey, sealed) ∷ rest) s =
      sift arena_id roster rest
        (sifted (sealed.arena_id == arena_id) hotkey (revealed (entry_of roster hotkey) sealed) s)

-- (commitment.fee_block, commitment.fee_index)
abbrev pub fee_key : SubmissionCommitment → ℤ × ℤ
fee_key c = (c.fee_block, c.fee_index)

abbrev pub same_int : ℤ → ℤ → Bool
same_int (pos m) (pos n) = eqb m n
same_int (negsuc m) (negsuc n) = eqb m n
same_int (pos m) (negsuc n) = false
same_int (negsuc m) (pos n) = false

abbrev pub same_fee : ℤ × ℤ → ℤ × ℤ → Bool
same_fee (block, index) (other_block, other_index) =
    same_int block other_block && same_int index other_index

abbrev pub is_seen : ℤ × ℤ → List (ℤ × ℤ) → Bool
is_seen key [] = false
is_seen key (other ∷ seen) = same_fee other key || is_seen key seen

-- (int(blocks.get(hotkey, commit_close_block)), hotkey), in order
unfoldable pub commits_before :
    Dict ℕ → ℕ → String × SubmissionCommitment → String × SubmissionCommitment → Bool
commits_before blocks close (hotkey, c) (other, d) =
    ltb (get_or hotkey close blocks) (get_or other close blocks)
    || (eqb (get_or hotkey close blocks) (get_or other close blocks) && text_le hotkey other)

pub data Verdict : Type 0 where
  other_arena accepted : Verdict
  refused_for : Refusal → Verdict

abbrev pub then_seen : Verdict → ℤ × ℤ → List (ℤ × ℤ) → List (ℤ × ℤ)
then_seen accepted key seen = key ∷ seen
then_seen other_arena key seen = seen
then_seen (refused_for why) key seen = seen

abbrev pub then_refused : Verdict → String → Dict Refusal → Dict Refusal
then_refused (refused_for why) hotkey refused = put hotkey why refused
then_refused accepted hotkey refused = refused
then_refused other_arena hotkey refused = refused

abbrev pub then_found : Verdict → Candidate → List Candidate → List Candidate
then_found accepted candidate found = candidate ∷ found
then_found other_arena candidate found = found
then_found (refused_for why) candidate found = found

module _ (arena_id : String) (close : ℕ) (roster : Roster) (blocks : Dict ℕ)
    (coldkeys : Dict String) where
  -- the tests of one turn of the loop
  unfoldable pub verdict : List (ℤ × ℤ) → String → SubmissionCommitment → Verdict
  verdict seen hotkey c =
      if not (c.arena_id == arena_id)
      then other_arena
      else (if leb close (get_or hotkey close blocks)
          then refused_for committed_late
          else (if is_off roster hotkey
              then refused_for off_roster
              else (if is_seen (fee_key c) seen then refused_for fee_cited else accepted)))

  abbrev pub candidate_of : String → SubmissionCommitment → Candidate
  candidate_of hotkey c = record {
    hotkey = hotkey;
    coldkey = get_or hotkey "" coldkeys;
    commitment = c;
    commit_block = get_or hotkey close blocks;
  }

  -- the loop over the ordered commitments
  unfoldable pub choose :
      List (ℤ × ℤ) → Dict Refusal → Dict SubmissionCommitment → List Candidate × Dict Refusal
  unfolding verdict
  choose seen refused [] = ([], refused)
  choose seen refused ((hotkey, c) ∷ rest) =
      let turn = verdict seen hotkey c in
      let (found, dropped) =
        choose (then_seen turn (fee_key c) seen) (then_refused turn hotkey refused) rest in
      (then_found turn (candidate_of hotkey c) found, dropped)

-- The commitments that can be read, with those revealed on the roster.
unfoldable pub readable :
    Builtins → (String → String) → Client → String → Roster → Dict Refusal → Sifted
unfolding sift decode_submissions decode_sealed
readable b sha256 client arena_id roster dropped =
    let raw = client.commitments client.hotkeys in
    sift b sha256 arena_id roster (decode_sealed b raw)
      (record { decoded = decode_submissions b raw; refused = dropped })

unfoldable pub candidates :
    Builtins
    → (String → String)
    → Client
    → String
    → ℕ
    → Roster
    → Dict Refusal
    → List Candidate × Dict Refusal
unfolding readable commits_before sort choose
candidates b sha256 client arena_id close roster dropped =
    let s = readable b sha256 client arena_id roster dropped in
    let blocks = client.commitment_blocks (keys s.decoded) in
    choose arena_id close roster blocks client.coldkeys [] s.refused
      (sort (commits_before blocks close) s.decoded)
