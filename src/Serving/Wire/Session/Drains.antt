-- ===== src/Serving/Wire/Session/Drains.antt =====
-- A gpu that drains: it takes nothing new, and is reported once it is idle.
use microtensor_subnet.Base.{
  ℕ, ◌≤◌, ◌≡◌, refl, String, Bool, true, List, [], ◌∷◌, ◌++◌, ok, inl, inr, eq_iff, eqb, not, ◌&&◌,
  ◌||◌, ◌==◌, if◌then◌else◌, arith, Option-cases, ok-injective, subst, sym, contains, add_to_set,
  length,
}
use microtensor_subnet.Base.Dict.{keys}
use microtensor_subnet.Serving.Wire.Offered.{Settings}
use microtensor_subnet.Serving.Wire.Capacity.{Capacity, in_flight, drain_gpus}
use microtensor_subnet.Serving.Wire.Capacity.Slots.{take-counts, release-counts}
use microtensor_subnet.Serving.Wire.Session.{
  State, Event, Outcome, routed, finish_drains, handle_request, step, handle_welcome, handle_drain,
  end_task, nth_task, is_answered, still_waiting, undecodable, welcome, accepted, assign, request,
  cancel, beat, drain, ends, stop,
}
use microtensor_subnet.Serving.Wire.Refusals.{Request}
use microtensor_subnet.Serving.Wire.Link.{gpu_of}
use microtensor_subnet.Serving.Wire.Session.Guards.{
  turned_away, let_in, handle_request-Handled, refusal-none,
}
use microtensor_subnet.Serving.Wire.Session.Counts.{count_at, count_at-without_at}

still_waiting-contains :
    (c : Capacity) (count : ℕ) (gpu : String) (pending : List String)
    → contains gpu (still_waiting c count pending)
      ≡ (contains gpu pending && not (eqb (if gpu == "" then count else in_flight gpu c) 0))
unfolding still_waiting
still_waiting-contains c count gpu [] = refl
still_waiting-contains c count gpu (x ∷ rest) =
    ground
      (arith, eq_iff x gpu, eq_iff gpu "", eq_iff x "", still_waiting-contains c count gpu rest)

-- After the drains are finished, a gpu is still waited for exactly if it was before and a request
-- runs on it; all gpus together, exactly if they were and a task has not been dropped.
pub finish_drains-waits :
    (s : State) (gpu : String)
    → contains gpu (finish_drains s).pending ≡ (
        contains gpu s.pending
        && not (eqb (if gpu == "" then length s.running else in_flight gpu s.capacity) 0))
unfolding finish_drains
finish_drains-waits s gpu = still_waiting-contains s.capacity (length s.running) gpu s.pending

contains-snoc :
    (g x : String) (xs : List String) → contains g (xs ++ x ∷ []) ≡ (contains g xs || x == g)
contains-snoc g x [] = ground arith
contains-snoc g x (y ∷ ys) = ground (arith, contains-snoc g x ys)

contains-add_to_set :
    (g x : String) (xs : List String) → contains g (add_to_set x xs) ≡ (contains g xs || x == g)
unfolding add_to_set
contains-add_to_set g x xs = ground (arith, contains-snoc g x xs, eq_iff x g)

drain_gpus_keeps :
    (g : String) (more draining : List String)
    → contains g draining ≡ true
    → contains g (drain_gpus more draining) ≡ true
unfolding drain_gpus
drain_gpus_keeps g [] draining h = h
drain_gpus_keeps g (x ∷ rest) draining h =
    drain_gpus_keeps g rest (add_to_set x draining)
      (ground (arith, contains-add_to_set g x draining))

-- The gpu drains in the second state too, and has no more live tasks than in the first.
pub record OnlyDrains (g : String) (s t : State) : Type 0 where
  pub drains : contains g t.capacity.draining ≡ true
  pub fewer : count_at g t.live ≤ count_at g s.live

handle_request-OnlyDrains :
    (settings : Settings) (has_chat : Bool) (now : ℕ) (r : Request) (s : State) (g : String)
    {t : State}
    → contains g s.capacity.draining ≡ true
    → handle_request settings has_chat now r s ≡ ok t
    → OnlyDrains g s t
unfolding count_at
handle_request-OnlyDrains settings has_chat now r s g {t} d h =
    elim (handle_request-Handled settings has_chat now r s h) [
      | turned_away reason why e ↦ subst (OnlyDrains g s) (sym e) (ground arith)
      | let_in taken why took e ↦
          let (_, _, _, open_gpu, _) =
            refusal-none settings s.capacity r has_chat (routed s r) now why in
          subst (OnlyDrains g s) (sym e) (
            ground
              (arith, take-counts (routed s r) g s.capacity took, eq_iff (routed s r) g, open_gpu))
    ]

end_task-OnlyDrains :
    (n : ℕ) (outcome : Outcome) (now : ℕ) (s : State) (g : String)
    → contains g s.capacity.draining ≡ true
    → OnlyDrains g s (end_task n outcome now s)
unfolding end_task finish_drains
end_task-OnlyDrains n outcome now s g d = elim (Option-cases (nth_task n s.live)) [
  | inl e ↦ rw (end_task, e) (ground arith)
  | inr (t, e) ↦
      rw (end_task, e)
        (ground (
          arith,
          count_at-without_at g n s.live t e,
          release-counts t.gpu g (is_answered outcome) now s.capacity,
        ))
]

handle_drain-OnlyDrains :
    (instance : String) (s : State) (g : String)
    → contains g s.capacity.draining ≡ true
    → OnlyDrains g s (handle_drain instance s)
unfolding handle_drain finish_drains
handle_drain-OnlyDrains instance s g d = ground (
  arith,
  drain_gpus_keeps g (keys s.capacity.limits) s.capacity.draining d,
  contains-add_to_set g (gpu_of instance s.link) s.capacity.draining,
)

-- Once a gpu drains, it drains after every event, and no event adds a task to it.
pub step-OnlyDrains :
    (settings : Settings) (has_chat : Bool) (e : Event) (s : State) (g : String) {t : State}
    → contains g s.capacity.draining ≡ true
    → step settings has_chat e s ≡ ok t
    → OnlyDrains g s t
unfolding step handle_welcome
step-OnlyDrains settings has_chat undecodable s g d h = absurd (cc)
step-OnlyDrains settings has_chat (welcome phases entries wanted) s g d h =
    subst (OnlyDrains g s) (ok-injective h) (ground arith)
step-OnlyDrains settings has_chat (accepted label status) s g d h =
    subst (OnlyDrains g s) (ok-injective h) (ground arith)
step-OnlyDrains settings has_chat (assign wanted) s g d h =
    subst (OnlyDrains g s) (ok-injective h) (ground arith)
step-OnlyDrains settings has_chat (request now r) s g d h =
    handle_request-OnlyDrains settings has_chat now r s g d h
step-OnlyDrains settings has_chat (cancel id) s g d h =
    subst (OnlyDrains g s) (ok-injective h) (ground arith)
step-OnlyDrains settings has_chat (beat phases) s g d h =
    subst (OnlyDrains g s) (ok-injective h) (ground arith)
step-OnlyDrains settings has_chat (drain instance) s g d h =
    subst (OnlyDrains g s) (ok-injective h) (handle_drain-OnlyDrains instance s g d)
step-OnlyDrains settings has_chat (ends n outcome now) s g d h =
    subst (OnlyDrains g s) (ok-injective h) (end_task-OnlyDrains n outcome now s g d)
step-OnlyDrains settings has_chat stop s g d h =
    subst (OnlyDrains g s) (ok-injective h)
      (ground (arith, drain_gpus_keeps g (keys s.capacity.limits) s.capacity.draining d))
