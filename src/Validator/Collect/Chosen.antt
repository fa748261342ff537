-- ===== src/Validator/Collect/Chosen.antt =====
-- Who is chosen: the loop at the end of `candidates`.
use microtensor_subnet.Base.{
  ℕ, ◌≡◌, ◌<◌, refl, String, Bool, true, false, List, [], ◌∷◌, All, arith, ◌||◌, ◌==◌, eq_iff, map,
  contains, ◌≢◌,
}
use microtensor_subnet.Base.Int.{ℤ}
use microtensor_subnet.Base.Dict.{Dict, keys, has, put, has-put}
use microtensor_subnet.Base.Sorting.{sort, All-sort}
use microtensor_subnet.Base.Text.Builtins.{Builtins}
use microtensor_subnet.Chain.Commitments.Submissions.{SubmissionCommitment}
use microtensor_subnet.Validator.Collect.{
  Candidate, Client, Roster, Refusal, Verdict, other_arena, accepted, refused_for, fee_key,
  same_fee, is_seen, is_off, verdict, choose, candidates, readable, candidate_of, commits_before,
  then_seen, then_refused, then_found,
}

-- No two of the candidates cite the same fee.
abbrev pub FeesApart : List Candidate → Type 0
FeesApart [] = Unit
FeesApart (c ∷ cs) =
    All (λ d. same_fee (fee_key c.commitment) (fee_key d.commitment) ≡ false) cs × FeesApart cs

-- A candidate of the arena, committed before the close, and on the roster if there is one.
pub record Admitted (arena_id : String) (close : ℕ) (roster : Roster) (c : Candidate) : Type 0 where
  pub in_arena : c.commitment.arena_id ≡ arena_id
  pub in_time : c.commit_block < close
  pub on_roster : is_off roster c.hotkey ≡ false

-- The hotkey is among the candidates, or a reason against it is noted.
abbrev pub is_answered : String → List Candidate × Dict Refusal → Bool
is_answered hotkey (found, refused) =
    contains hotkey (map (λ c. c.hotkey) found) || has hotkey refused

module _ (arena_id : String) (close : ℕ) (roster : Roster) (blocks : Dict ℕ)
    (coldkeys : Dict String) where
  -- What is chosen where the fees in `seen` are taken.
  abbrev IsChosen : List (ℤ × ℤ) → List Candidate → Type 0
  IsChosen seen found =
      All (λ c. Admitted arena_id close roster c × (is_seen (fee_key c.commitment) seen ≡ false))
        found
      × FeesApart found

  has-choose :
      (k : String) (seen : List (ℤ × ℤ)) (refused : Dict Refusal)
      (pairs : Dict SubmissionCommitment)
      → has k refused ≡ true
      → has k (choose arena_id close roster blocks coldkeys seen refused pairs).1 ≡ true
  unfolding choose
  has-choose k seen refused [] h = h
  has-choose k seen refused ((hotkey, c) ∷ rest) h =
      has-choose k
        (then_seen (verdict arena_id close roster blocks coldkeys seen hotkey c) (fee_key c) seen)
        (then_refused (verdict arena_id close roster blocks coldkeys seen hotkey c) hotkey refused)
        rest (kept (verdict arena_id close roster blocks coldkeys seen hotkey c))
    where
      kept : (turn : Verdict) → has k (then_refused turn hotkey refused) ≡ true
      kept other_arena = h
      kept accepted = h
      kept (refused_for why) = ground (arith, has-put hotkey k why refused)

  verdict_ours :
      (seen : List (ℤ × ℤ)) (hotkey : String) (c : SubmissionCommitment)
      → (c.arena_id == arena_id) ≡ true
      → verdict arena_id close roster blocks coldkeys seen hotkey c ≢ other_arena
  unfolding verdict
  verdict_ours seen hotkey c h e = ground (arith, e)

  -- Each commitment to the arena is answered.
  choose_answers :
      (seen : List (ℤ × ℤ)) (refused : Dict Refusal) (pairs : Dict SubmissionCommitment)
      → All
          (λ e.
            (e.1.arena_id == arena_id) ≡ true
            → is_answered e.0 (choose arena_id close roster blocks coldkeys seen refused pairs)
              ≡ true)
          pairs
  unfolding choose
  choose_answers seen refused [] = tt
  choose_answers seen refused ((hotkey, c) ∷ rest) =
      by_turn (verdict arena_id close roster blocks coldkeys seen hotkey c) refl (λ turn.
        choose_answers (then_seen turn (fee_key c) seen) (then_refused turn hotkey refused) rest)
    where
      answer : Verdict → List Candidate × Dict Refusal
      answer turn =
          choose arena_id close roster blocks coldkeys (then_seen turn (fee_key c) seen)
            (then_refused turn hotkey refused) rest

      widened :
          (turn : Verdict) (pairs : Dict SubmissionCommitment)
          → All
              (λ e. (e.1.arena_id == arena_id) ≡ true → is_answered e.0 (answer turn) ≡ true)
              pairs
          → All
              (λ e.
                (e.1.arena_id == arena_id) ≡ true
                → is_answered e.0 (
                  then_found turn
                      (candidate_of arena_id close roster blocks coldkeys hotkey c)
                      (answer turn).0,
                  (answer turn).1,
                )
                  ≡ true)
              pairs
      widened turn [] h = tt
      widened other_arena (p ∷ pairs) (h, hs) = (h, widened other_arena pairs hs)
      widened (refused_for why) (p ∷ pairs) (h, hs) = (h, widened (refused_for why) pairs hs)
      widened accepted (p ∷ pairs) (h, hs) = (λ k. ground (arith, h k), widened accepted pairs hs)

      by_turn :
          (turn : Verdict)
          → verdict arena_id close roster blocks coldkeys seen hotkey c ≡ turn
          → ((next : Verdict)
              → All
                  (λ e. (e.1.arena_id == arena_id) ≡ true → is_answered e.0 (answer next) ≡ true)
                  rest)
          → All
              (λ e.
                (e.1.arena_id == arena_id) ≡ true
                → is_answered e.0 (
                  then_found turn
                      (candidate_of arena_id close roster blocks coldkeys hotkey c)
                      (answer turn).0,
                  (answer turn).1,
                )
                  ≡ true)
              ((hotkey, c) ∷ rest)
      by_turn other_arena e ih =
          (λ k. absurd (verdict_ours seen hotkey c k e), widened other_arena rest (ih other_arena))
      by_turn accepted e ih =
          (λ k. ground (arith, eq_iff hotkey hotkey), widened accepted rest (ih accepted))
      by_turn (refused_for why) e ih = (
        λ k. ground (
          arith,
          has-choose hotkey seen (put hotkey why refused) rest
              (ground (arith, has-put hotkey hotkey why refused, eq_iff hotkey hotkey)),
        ),
        widened (refused_for why) rest (ih (refused_for why)),
      )

-- Each commitment to the arena that can be read makes its hotkey a candidate, or the hotkey is dropped
-- with a reason.
pub candidates_answer :
    (b : Builtins) (sha256 : String → String) (client : Client) (arena_id : String) (close : ℕ)
    (roster : Roster) (dropped : Dict Refusal)
    → All
        (λ e.
          (e.1.arena_id == arena_id) ≡ true
          → is_answered e.0 (candidates b sha256 client arena_id close roster dropped) ≡ true)
        (readable b sha256 client arena_id roster dropped).decoded
unfolding candidates
candidates_answer b sha256 client arena_id close roster dropped =
    let s = readable b sha256 client arena_id roster dropped in
    let blocks = client.commitment_blocks (keys s.decoded) in
    All-sort (commits_before blocks close)
      (λ e.
        (e.1.arena_id == arena_id) ≡ true
        → is_answered e.0 (
            choose arena_id close roster blocks client.coldkeys [] s.refused
              (sort (commits_before blocks close) s.decoded))
          ≡ true)
      s.decoded
      (choose_answers arena_id close roster blocks client.coldkeys [] s.refused
        (sort (commits_before blocks close) s.decoded))
