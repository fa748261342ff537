-- ===== src/Validator/Progress/Quiet.antt =====
-- After a miner is settled nothing more is sent for it, and the queue of reports is bounded.
use microtensor_subnet.Base.{
  ℕ, ◌+◌, ◌≤◌, ◌≡◌, refl, String, Bool, true, false, List, [], ◌∷◌, ◌++◌, none, length, contains,
  add_to_set, take, not, ◌||◌, ◌==◌, if◌then◌else◌, arith, inl, inr, Option-cases, eq_iff, sym, ◌∙◌,
  ap, sum_of,
}
use microtensor_subnet.Base.Dict.{Dict, get, get-put, get-pop}
use microtensor_subnet.Validator.Progress.{
  Reporter, Report, Sent, progress, result, Move, append, all_but_first, queue_limit, note_limit,
  enqueue, post, publish, settle, close, pick, pick_from, send_result, move, moves, posts,
  publishes, settles, closes, picks, sends, is_throttled, stages,
}

-- What holds on both branches holds of the conditional.
on_both : (P : Reporter → Type 0) (b : Bool) {s t : Reporter} → P s → P t → P (if b then s else t)
on_both P true p q = p
on_both P false p q = q

length-snoc {ℓ} : {A : Type ℓ} (x : A) (xs : List A) → length (xs ++ x ∷ []) ≡ length xs + 1
length-snoc x [] = refl
length-snoc x (y ∷ ys) = omega (arith, length-snoc x ys)

length-append-le :
    (r : Report) (pending : List Report)
    → length pending ≤ queue_limit
    → length (append r pending) ≤ queue_limit
unfolding append
length-append-le r [] h = ground arith
length-append-le r (p ∷ rest) h = ground (arith, length-snoc r (p ∷ rest), length-snoc r rest)

length-all_but_first-le : (pending : List Report) → length (all_but_first pending) ≤ length pending
length-all_but_first-le [] = omega arith
length-all_but_first-le (p ∷ rest) = omega arith

enqueue-bounded :
    (r : Report) (now : ℕ) (s : Reporter)
    → length s.pending ≤ queue_limit
    → length (enqueue r now s).pending ≤ queue_limit
unfolding enqueue
enqueue-bounded r now s h =
    ground (arith, length-append-le (record r { note = take note_limit r.note }) s.pending h)

pick-bounded :
    (s : Reporter) → length s.pending ≤ queue_limit → length (pick s).pending ≤ queue_limit
unfolding pick
pick-bounded s h = by_results s.results s.pending refl
  where
    by_results :
        (d : Dict String) (p : List Report)
        → s.pending ≡ p
        → length (pick_from d s).pending ≤ queue_limit
    by_results [] [] e = ground (arith, e)
    by_results [] (x ∷ p) e = ground (arith, e)
    by_results ((k, v) ∷ d) p e = h

move-bounded :
    (m : Move) (s : Reporter)
    → length s.pending ≤ queue_limit
    → length (move m s).pending ≤ queue_limit
unfolding move post publish settle close send_result
move-bounded (posts miner stage done total note detail now) s h =
    on_both (λ x. length x.pending ≤ queue_limit) (not s.enabled || not (contains stage stages)) h
      (enqueue-bounded _ now s h)
move-bounded (publishes miner body) s h = ground arith
move-bounded (settles miner) s h = h
move-bounded closes s h = h
move-bounded picks s h = pick-bounded s h
move-bounded (sends miner) s h = ground arith

-- However a reporter is used, at most 256 reports wait to be sent.
pub moves-bounded :
    (ms : List Move) (s : Reporter)
    → length s.pending ≤ queue_limit
    → length (moves ms s).pending ≤ queue_limit
unfolding moves
moves-bounded [] s h = h
moves-bounded (m ∷ rest) s h = moves-bounded rest (move m s) (move-bounded m s h)

-- The results of a miner among what was sent.
abbrev pub result_of : String → Sent → ℕ
result_of miner (progress r) = 0
result_of miner (result m body) = if m == miner then 1 else 0

unfoldable pub results_of : String → List Sent → ℕ
results_of miner sent = sum_of (result_of miner) sent

results_of-snoc :
    (miner : String) (x : Sent) (xs : List Sent)
    → results_of miner (xs ++ x ∷ []) ≡ results_of miner xs + result_of miner x
unfolding results_of
results_of-snoc miner x [] = omega arith
results_of-snoc miner x (y ∷ ys) = omega (arith, results_of-snoc miner x ys)

-- The miner is settled, and no result of it waits or is on its way.
pub record IsQuiet (miner : String) (s : Reporter) : Type 0 where
  pub settled : contains miner s.settled ≡ true
  pub none_waits : get miner s.results ≡ none
  pub none_sent : get miner s.sending ≡ none

-- The miner stays quiet, and no result of it is sent.
pub record StaysQuiet (miner : String) (s t : Reporter) : Type 0 where
  pub quiet : IsQuiet miner t
  pub unsent : results_of miner t.sent ≡ results_of miner s.sent

contains-add_to_set :
    (g x : String) (xs : List String) → contains g xs ≡ true → contains g (add_to_set x xs) ≡ true
unfolding add_to_set
contains-add_to_set g x xs h = ground (arith, contains-snoc g x xs h)
  where
    contains-snoc :
        (g x : String) (xs : List String) → contains g xs ≡ true → contains g (xs ++ x ∷ []) ≡ true
    contains-snoc g x [] h = absurd (cc)
    contains-snoc g x (y ∷ ys) h = ground (arith, contains-snoc g x ys)

get_head_none :
    (k j : String) (v : String) (d : Dict String) → get k ((j, v) ∷ d) ≡ none → (j == k) ≡ false
unfolding get
get_head_none k j v d h = ground arith

pick-StaysQuiet : (miner : String) (s : Reporter) → IsQuiet miner s → StaysQuiet miner s (pick s)
unfolding pick
pick-StaysQuiet miner s q = by_results s.results s.pending refl refl
  where
    by_results :
        (d : Dict String) (p : List Report)
        → s.results ≡ d
        → s.pending ≡ p
        → StaysQuiet miner s (pick_from d s)
    by_results [] [] e k = ground (arith, e, k)
    by_results [] (x ∷ p) e k = ground (arith, e, k, results_of-snoc miner (progress x) s.sent)
    by_results ((j, v) ∷ d) p e k = ground (
      arith,
      e,
      eq_iff j miner,
      get_head_none miner j v d (ap (get miner) (sym e) ∙ q.none_waits),
      get-pop j miner s.results,
      get-put j miner v s.sending,
    )

enqueue-StaysQuiet :
    (miner : String) (r : Report) (now : ℕ) (s : Reporter)
    → IsQuiet miner s
    → StaysQuiet miner s (enqueue r now s)
unfolding enqueue
enqueue-StaysQuiet miner r now s q =
    on_both (StaysQuiet miner s) (s.closed || is_throttled (get r.miner s.last) r now)
      (record { quiet = q; unsent = refl })
      (record {
        quiet = record { settled = q.settled; none_waits = q.none_waits; none_sent = q.none_sent };
        unsent = refl;
      })

move-StaysQuiet :
    (miner : String) (m : Move) (s : Reporter) → IsQuiet miner s → StaysQuiet miner s (move m s)
unfolding move post publish settle close send_result
move-StaysQuiet miner (posts other stage done total note detail now) s q =
    on_both (StaysQuiet miner s) (not s.enabled || not (contains stage stages))
      (record { quiet = q; unsent = refl }) (enqueue-StaysQuiet miner _ now s q)
move-StaysQuiet miner (publishes other body) s q =
    ground (arith, eq_iff other miner, get-put other miner body s.results)
move-StaysQuiet miner (settles other) s q =
    ground
      (arith, contains-add_to_set miner other s.settled q.settled, get-pop other miner s.results)
move-StaysQuiet miner closes s q = ground arith
move-StaysQuiet miner picks s q = pick-StaysQuiet miner s q
move-StaysQuiet miner (sends other) s q = elim (Option-cases (get other s.sending)) [
  | inl e ↦ ground (arith, e)
  | inr (body, e) ↦ ground (
    arith,
    e,
    eq_iff other miner,
    get-pop other miner s.sending,
    results_of-snoc miner (result other body) s.sent,
  )
]

-- Once a miner is settled and no result of it is on its way, none is ever sent again, whatever is
-- posted, published or picked afterwards.
pub moves-StaysQuiet :
    (miner : String) (ms : List Move) (s : Reporter)
    → IsQuiet miner s
    → StaysQuiet miner s (moves ms s)
unfolding moves
moves-StaysQuiet miner [] s q = record { quiet = q; unsent = refl }
moves-StaysQuiet miner (m ∷ rest) s q =
    let first = move-StaysQuiet miner m s q in
    let more = moves-StaysQuiet miner rest (move m s) first.quiet in
    record { quiet = more.quiet; unsent = more.unsent ∙ first.unsent }
