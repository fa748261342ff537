-- ===== src/Chain/Commitments/Tests.antt =====
-- Commitments of one miner, written out and read back.

use microtensor_subnet.Base.{
  ◌≡◌, ◌≤◌, refl, String, Bool, true, false, Option, none, some, ok, raised, if◌then◌else◌, ltb,
  text_le,
}
use microtensor_subnet.Base.Int.{pos}
use microtensor_subnet.Base.Text.{first_chars, lstrip, rstrip, strip}
use microtensor_subnet.Base.Text.Decimal.{ascii}
use microtensor_subnet.Base.Text.Patterns.{
  any_number, at_most, repeated, hex_text, name_text, arena_text, hf_user_text, git_sha_text,
  digest_text, salt_text,
}
use microtensor_subnet.Base.Text.Split.{split, join}
use microtensor_subnet.Chain.Commitments.Digests.{
  bad_profile, unknown_scheme, without_prefix, payload_of, short_digest, digest_matches,
}
use microtensor_subnet.Chain.Commitments.Manifest.{
  Commitment, before, after, checked_commitment, encode_commitment, commitment_of,
  commitment_of_parts, decode_commitment, build_commitment, covers,
}
use microtensor_subnet.Chain.Commitments.Manifest.RoundTrip.{decode_commitment-encode_commitment}
use microtensor_subnet.Chain.Commitments.Reveals.{
  Reveal, checked_reveal, encode_reveal, reveal_of, reveal_of_parts, decode_reveal,
}
use microtensor_subnet.Chain.Commitments.Reveals.RoundTrip.{decode_reveal-encode_reveal}
use microtensor_subnet.Chain.Commitments.Submissions.{
  SubmissionCommitment, is_profile, is_unknown_profile, checked_submission, encode_submission,
  submission_of, submission_of_parts, decode_submission,
}
use microtensor_subnet.Chain.Commitments.Submissions.RoundTrip.{decode_submission-encode_submission}
use microtensor_subnet.Chain.Commitments.Sealed.{
  SealedCommitment, checked_sealed, encode_sealed, sealed_of, sealed_of_parts, decode_sealed_text,
}
use microtensor_subnet.Chain.Commitments.Sealed.RoundTrip.{decode_sealed_text-encode_sealed}
use microtensor_subnet.Chain.Commitments.Apart.{readers, readers_le}

program : Unit {0}
unfolding first_chars lstrip rstrip strip any_number at_most repeated hex_text name_text arena_text
    hf_user_text git_sha_text digest_text salt_text split join without_prefix payload_of
    short_digest digest_matches before after checked_commitment encode_commitment commitment_of
    commitment_of_parts decode_commitment build_commitment covers checked_reveal encode_reveal
    reveal_of reveal_of_parts decode_reveal is_profile is_unknown_profile checked_submission
    encode_submission submission_of submission_of_parts decode_submission checked_sealed
    encode_sealed sealed_of sealed_of_parts decode_sealed_text readers
    microtensor_subnet.Base.Text.Decimal.show microtensor_subnet.Base.Text.Decimal.read
program = tt

abbrev sha : String
sha = "00112233445566778899aabbccddeeff00112233"

abbrev digest : String
digest = "00112233445566778899aabbccddeeff"

abbrev alices : SubmissionCommitment
alices = record {
  arena_id = "sql";
  hf_user = "Alice";
  artifact_sha = sha;
  fee_block = pos 120;
  fee_index = pos 3;
  profile = "P1";
}

abbrev alices_text : String
alices_text = "mt4|sql|Alice|00112233445566778899aabbccddeeff00112233|P1|120|3"

alices_encoded : encode_submission ascii alices ≡ ok alices_text
unfolding program
alices_encoded = refl

decode_submission-encode_submission_example : decode_submission ascii alices_text ≡ some alices
unfolding program
decode_submission-encode_submission_example =
    decode_submission-encode_submission ascii alices refl refl

-- An unknown profile is refused.
profile_refused : checked_submission (record alices { profile = "P9" }) ≡ raised bad_profile
unfolding program
profile_refused = refl

-- A name that ends in a newline passes the pattern of an arena.
newline_accepted :
    checked_submission (record alices { arena_id = "sql\n" })
    ≡ ok (record alices { arena_id = "sql\n" })
unfolding program
newline_accepted = refl

abbrev hidden : SealedCommitment
hidden = record {
  arena_id = "sql";
  digest = "00112233445566778899aabbccddeeff00112233445566778899aabbccddeeff";
  fee_block = pos 120;
  fee_index = pos 4;
  profile = "";
}

decode_sealed_text-encode_sealed_example :
    decode_sealed_text ascii (encode_sealed ascii hidden) ≡ some hidden
unfolding program
decode_sealed_text-encode_sealed_example = decode_sealed_text-encode_sealed ascii hidden refl

abbrev pinned : Commitment
pinned = record {
  round_index = pos 7;
  track = "text-1";
  hardware_class = "c4";
  manifest_digest = digest;
  source = "hf:alice/model";
  sealed = false;
}

abbrev pinned_text : String
pinned_text = "mt1|7|text-1|c4|00112233445566778899aabbccddeeff|hf:alice/model"

decode_commitment-encode_commitment_example : decode_commitment ascii pinned_text ≡ some pinned
unfolding program
decode_commitment-encode_commitment_example =
    decode_commitment-encode_commitment ascii pinned refl refl (refl, refl)

-- A space at the end of a source is lost.
space_lost :
    decode_commitment ascii "mt1|7|text-1|c4|00112233445566778899aabbccddeeff|hf:alice/model "
    ≡ some pinned
unfolding program
space_lost = refl

scheme_refused : checked_commitment (record pinned { source = "ftp:alice" }) ≡ raised unknown_scheme
unfolding program
scheme_refused = refl

long_digest_is_covered : covers ascii pinned "sha256:00112233445566778899aabbccddeeff00" ≡ true
unfolding program
long_digest_is_covered = refl

abbrev opened : Reveal
opened = record {
  round_index = pos 7;
  manifest_digest = "0011223344556677";
  key = "00112233445566778899aabbccddeeff00112233445566778899aabbccddeeff";
  commitment_hash = "8899aabbccddeeff";
}

abbrev opened_text : String
opened_text =
    "mtr|7|0011223344556677|00112233445566778899aabbccddeeff00112233445566778899aabbccddeeff|8899aabbccddeeff"

decode_reveal-encode_reveal_example : decode_reveal ascii opened_text ≡ some opened
unfolding program
decode_reveal-encode_reveal_example =
    decode_reveal-encode_reveal ascii opened refl refl (refl, refl)

readers_le_example : readers ascii pinned_text ≤ 1
readers_le_example = readers_le ascii pinned_text
