-- ===== src/Validator/Collect/Tests.antt =====
-- An arena with four hotkeys: one commits in the open, one cites the same fee, one is sealed and
-- revealed, and one commits late.

use microtensor_subnet.Base.{
  ℕ, ◌≡◌, refl, String, Bool, true, false, List, [], ◌∷◌, Option, none, some, Result, ok, raised,
  All, map, contains, ◌==◌, ◌||◌, text_le,
}
use microtensor_subnet.Base.Int.{pos}
use microtensor_subnet.Base.Dict.{Dict, get, get_or, put, has}
use microtensor_subnet.Base.Sorting.{sort, insert}
use microtensor_subnet.Base.Text.{lstrip, rstrip, strip}
use microtensor_subnet.Base.Text.Decimal.{ascii}
use microtensor_subnet.Base.Text.Patterns.{
  any_number, at_most, repeated, arena_text, hf_user_text, git_sha_text, digest_text,
}
use microtensor_subnet.Base.Text.Split.{split, join}
use microtensor_subnet.Chain.Commitments.Submissions.{
  SubmissionCommitment, is_profile, is_unknown_profile, checked_submission, submission_of,
  submission_of_parts, decode_submission, decode_submissions, decode_submissions_from,
}
use microtensor_subnet.Chain.Commitments.Sealed.{
  seal_digest, checked_sealed, sealed_of, sealed_of_parts, decode_sealed_text, decode_sealed,
  decode_sealed_from, unseal, matches,
}
use microtensor_subnet.Validator.Collect.{
  Candidate, Client, TransferEvent, Entry, committed_late, fee_cited, revealed, sift,
  commits_before, verdict, choose, readable, candidates,
}
use microtensor_subnet.Validator.Collect.Fees.{fee_ok, transfer_problem, Pays, fee_ok-Pays}
use microtensor_subnet.Validator.Collect.Chosen.{is_answered, candidates_answer}

program : Unit {0}
unfolding lstrip rstrip strip any_number at_most repeated arena_text hf_user_text git_sha_text
    digest_text split join is_profile is_unknown_profile checked_submission submission_of
    submission_of_parts decode_submission decode_submissions decode_submissions_from seal_digest
    checked_sealed sealed_of sealed_of_parts decode_sealed_text decode_sealed decode_sealed_from
    unseal matches revealed sift commits_before verdict choose readable candidates fee_ok
    transfer_problem get get_or put has sort insert text_le
    microtensor_subnet.Base.Text.Decimal.read
program = tt

-- A stand-in for the hash: it tells the empty text from others.
abbrev short_hash : String → String
short_hash String.[] = "0000000000000000000000000000000000000000000000000000000000000000"
short_hash (String.◌∷◌ c s) = "00112233445566778899aabbccddeeff00112233445566778899aabbccddeeff"

abbrev sha : String
sha = "00112233445566778899aabbccddeeff00112233"

abbrev raw : Dict String
raw =
    ("ann", "mt2|sql|ann|00112233445566778899aabbccddeeff00112233|9|1")
    ∷ ("bob", "mt2|sql|bob|00112233445566778899aabbccddeeff00112233|9|1")
    ∷ ("cat", "mt3|sql|00112233445566778899aabbccddeeff00112233445566778899aabbccddeeff|9|2")
    ∷ ("dan", "mt2|sql|dan|00112233445566778899aabbccddeeff00112233|9|3")
    ∷ []

abbrev client : Client
client = record {
  hotkeys = "ann" ∷ "bob" ∷ "cat" ∷ "dan" ∷ [];
  coldkeys = ("ann", "cold") ∷ [];
  commitments = λ hotkeys. raw;
  commitment_blocks = λ hotkeys. ("ann", 20) ∷ ("bob", 21) ∷ ("cat", 22) ∷ ("dan", 30) ∷ [];
  transfer_at = λ block index.
      ok
        (record { payer = "cold"; recipient = "arena"; amount_rao = 7; is_ok = true; reason = "" });
}

abbrev open_entry : Entry
open_entry = record { reveal_state = ""; hf_user = ""; artifact_sha = ""; salt = "" }

abbrev roster : Option (Dict Entry)
roster = some (
    ("ann", open_entry)
    ∷ ("bob", open_entry)
    ∷ ("cat", record { reveal_state = "unsealed"; hf_user = "cat"; artifact_sha = sha; salt = "s" })
    ∷ ("dan", open_entry)
    ∷ [])

abbrev cats : SubmissionCommitment
cats = record {
  arena_id = "sql";
  hf_user = "cat";
  artifact_sha = sha;
  fee_block = pos 9;
  fee_index = pos 2;
  profile = "";
}

abbrev anns : SubmissionCommitment
anns = record {
  arena_id = "sql";
  hf_user = "ann";
  artifact_sha = sha;
  fee_block = pos 9;
  fee_index = pos 1;
  profile = "";
}

abbrev ann : Candidate
ann = record { hotkey = "ann"; coldkey = "cold"; commitment = anns; commit_block = 20 }

chosen_of_four : candidates ascii short_hash client "sql" 30 roster [] ≡ (
  ann ∷ record { hotkey = "cat"; coldkey = ""; commitment = cats; commit_block = 22 } ∷ [],
  ("bob", fee_cited) ∷ ("dan", committed_late) ∷ [],
)
unfolding program
chosen_of_four = refl

candidates_answer_example :
    All
      (λ e.
        (e.1.arena_id == "sql") ≡ true
        → is_answered e.0 (candidates ascii short_hash client "sql" 30 roster []) ≡ true)
      (readable ascii short_hash client "sql" roster []).decoded
candidates_answer_example = candidates_answer ascii short_hash client "sql" 30 roster []

fee_ok-Pays_example :
    (event : TransferEvent) × (client.transfer_at (pos 9) (pos 1) ≡ ok event)
    × Pays event ann "arena" 7
unfolding program
fee_ok-Pays_example = fee_ok-Pays client ann "arena" 7 refl refl
