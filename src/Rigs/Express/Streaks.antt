-- ===== src/Rigs/Express/Streaks.antt =====
-- rigs/validator/schedule/express.py: which rigs are due early, told by what their probes gave.
use text.Mathlib.TextEquality.{eq_iff}
use microtensor_subnet.Base.{
  ℕ, zero, suc, ◌+◌, ◌≡◌, refl, String, Bool, true, false, not, List, [], ◌∷◌, ◌++◌, Option, none,
  some, eqb, ◌&&◌, ◌||◌, ◌==◌, add_to_set, contains, if◌then◌else◌, arith,
}
use microtensor_subnet.Base.Dict.{get_or, get_or-put, get_or-pop, get_or-nil}
use microtensor_subnet.Base.Floats.{Floats}
use microtensor_subnet.Rigs.Ledger.{Ledger}
use microtensor_subnet.Rigs.Express.{
  Rig, Card, Kind, Lane, Probe, fails, answers, record_signal, due_at, signalled,
  utilisation_signal, probe_fails, probe_answers, probe, probes, unreachable_ticks, new_lane,
}

-- Whether the probes of a rig found it online, in their order.
abbrev pub answered : {F : Type 0} → String → List (Probe F) → List Bool
answered id [] = []
answered id (fails rig moment ∷ ps) =
    if rig.id == id then false ∷ answered id ps else answered id ps
answered id (answers rig cards moment ∷ ps) =
    if rig.id == id then true ∷ answered id ps else answered id ps

-- The first n are failures.
abbrev pub starts_with_failures : ℕ → List Bool → Bool
starts_with_failures zero xs = true
starts_with_failures (suc n) [] = false
starts_with_failures (suc n) (online ∷ xs) = not online && starts_with_failures n xs

-- Somewhere n failures follow each other.
abbrev pub has_failures : ℕ → List Bool → Bool
has_failures n [] = starts_with_failures n []
has_failures n (online ∷ xs) = starts_with_failures n (online ∷ xs) || has_failures n xs

contains-append_one :
    (id other : String) (xs : List String)
    → contains id (xs ++ other ∷ []) ≡ (contains id xs || other == id)
contains-append_one id other [] = ground arith
contains-append_one id other (x ∷ xs) = ground (arith, contains-append_one id other xs)

contains-add_to_set :
    (id other : String) (xs : List String)
    → contains id (add_to_set other xs) ≡ (contains id xs || other == id)
unfolding add_to_set
contains-add_to_set id other xs = ground (arith, eq_iff other id, contains-append_one id other xs)

module _ {F : Type 0} where
  -- Signals and reports leave counts and dues as they are.
  count-due_at :
      (id : String) (count : ℕ) (rig : Rig) (moment : F) (lane : Lane F)
      → (due_at count rig moment lane).unreachable_by ≡ lane.unreachable_by
  unfolding due_at record_signal
  count-due_at id count rig moment lane = ground arith

  due-due_at :
      (id : String) (count : ℕ) (rig : Rig) (moment : F) (lane : Lane F)
      → contains id (due_at count rig moment lane).early_due
        ≡ (contains id lane.early_due || eqb count unreachable_ticks && rig.id == id)
  unfolding due_at record_signal
  due-due_at id count rig moment lane = ground (arith, contains-add_to_set id rig.id lane.early_due)

  count-signalled :
      (rig : Rig) (kind : Option Kind) (moment : F) (lane : Lane F)
      → (signalled rig kind moment lane).unreachable_by ≡ lane.unreachable_by
  unfolding record_signal
  count-signalled rig none moment lane = refl
  count-signalled rig (some kind) moment lane = refl

  due-signalled :
      (rig : Rig) (kind : Option Kind) (moment : F) (lane : Lane F)
      → (signalled rig kind moment lane).early_due ≡ lane.early_due
  unfolding record_signal
  due-signalled rig none moment lane = refl
  due-signalled rig (some kind) moment lane = refl

-- A rig becomes due later, where n of its probes have just failed.
abbrev due_later : ℕ → List Bool → Bool
due_later n [] = false
due_later n (false ∷ xs) = eqb n 2 || due_later (n + 1) xs
due_later n (true ∷ xs) = due_later 0 xs

fewer_failures :
    (n : ℕ) (xs : List Bool)
    → starts_with_failures (suc n) xs ≡ true
    → starts_with_failures n xs ≡ true
fewer_failures zero xs h = refl
fewer_failures (suc n) [] h = h
fewer_failures (suc n) (false ∷ xs) h = fewer_failures n xs h
fewer_failures (suc n) (true ∷ xs) h = h

due_later_run :
    (xs : List Bool)
    → (due_later 0 xs ≡ has_failures 3 xs)
      × (due_later 1 xs ≡ (starts_with_failures 2 xs || has_failures 3 xs))
      × (due_later 2 xs ≡ (starts_with_failures 1 xs || has_failures 3 xs))
due_later_run [] = (refl, refl, refl)
due_later_run (true ∷ xs) = let (a, b, c) = due_later_run xs in (a, a, a)
due_later_run (false ∷ xs) =
    let (a, b, c) = due_later_run xs in (b, ground (arith, c, fewer_failures 1 xs), refl)

module _ {F : Type 0} (f : Floats F) where
  count-probe_fails :
      (id : String) (rig : Rig) (moment : F) (lane : Lane F)
      → get_or id 0 (probe_fails f rig moment lane).unreachable_by ≡ (
          if rig.id == id
          then get_or id 0 lane.unreachable_by + 1
          else get_or id 0 lane.unreachable_by)
  unfolding probe_fails
  count-probe_fails id rig moment lane =
      rw
        (
          count-due_at id _ rig moment _,
          get_or-put rig.id id (get_or rig.id 0 lane.unreachable_by + 1) lane.unreachable_by 0,
        )
        (ground (arith, eq_iff rig.id id))

  due-probe_fails :
      (id : String) (rig : Rig) (moment : F) (lane : Lane F)
      → contains id (probe_fails f rig moment lane).early_due
        ≡ (contains id lane.early_due || (rig.id == id && eqb (get_or id 0 lane.unreachable_by) 2))
  unfolding probe_fails
  due-probe_fails id rig moment lane =
      rw (due-due_at id (get_or rig.id 0 lane.unreachable_by + 1) rig moment _)
        (ground (arith, eq_iff rig.id id))

  count-probe_answers :
      (id : String) (rig : Rig) (cards : List Card) (moment : F) (lane : Lane F)
      → get_or id 0 (probe_answers f rig cards moment lane).unreachable_by
        ≡ (if rig.id == id then 0 else get_or id 0 lane.unreachable_by)
  unfolding probe_answers
  count-probe_answers id rig cards moment lane =
      rw (count-signalled rig (utilisation_signal rig cards) moment _)
        (get_or-pop rig.id id lane.unreachable_by 0)

  due-probe_answers :
      (id : String) (rig : Rig) (cards : List Card) (moment : F) (lane : Lane F)
      → contains id (probe_answers f rig cards moment lane).early_due ≡ contains id lane.early_due
  unfolding probe_answers
  due-probe_answers id rig cards moment lane =
      rw (due-signalled rig (utilisation_signal rig cards) moment _) refl

  contains-early_due :
      (id : String) (ps : List (Probe F)) (lane : Lane F)
      → contains id (probes f ps lane).early_due ≡ (
          contains id lane.early_due
          || due_later (get_or id 0 lane.unreachable_by) (answered id ps))
  unfolding probes probe
  contains-early_due id [] lane = ground arith
  contains-early_due id (fails rig moment ∷ ps) lane =
      rw
        (
          contains-early_due id ps (probe_fails f rig moment lane),
          count-probe_fails id rig moment lane,
          due-probe_fails id rig moment lane,
        )
        (ground arith)
  contains-early_due id (answers rig cards moment ∷ ps) lane =
      rw
        (
          contains-early_due id ps (probe_answers f rig cards moment lane),
          count-probe_answers id rig cards moment lane,
          due-probe_answers id rig cards moment lane,
        )
        (ground arith)

  -- Whatever the ledger holds, a rig is due early, once a lane that starts anew has made its probes, if and
  -- only if three of the rig's own probes failed one after the other at some point.
  pub early_due-probes :
      (id : String) (ps : List (Probe F)) (ledger : Ledger F)
      → contains id (probes f ps (new_lane ledger)).early_due ≡ has_failures 3 (answered id ps)
  early_due-probes id ps ledger =
      let (run, after_one, after_two) = due_later_run (answered id ps) in
      rw (contains-early_due id ps (new_lane ledger), get_or-nil id) run
