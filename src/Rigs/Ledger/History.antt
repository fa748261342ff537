-- ===== src/Rigs/Ledger/History.antt =====
-- rigs/validator/scoring/reliability.py: the uptime of a rig, told by its own observations.
use microtensor_subnet.Base.{
  ◌≡◌, String, Bool, false, not, List, [], ◌∷◌, ◌&&◌, ◌==◌, if◌then◌else◌,
}
use microtensor_subnet.Base.Floats.{Floats}
use microtensor_subnet.Rigs.Ledger.{RigReliability, Ledger, observe, record_job, forget}

-- A call of the ledger, with its moment.
pub data Call (F : Type 0) : Type 0 where
  observed : String → Bool → F → Call F
  job_ended : String → Bool → F → Call F
  forgotten : String → Call F

-- What was observed of a rig since it was last forgotten; the last comes first here and below.
abbrev pub observations : {F : Type 0} → String → List (Call F) → List (Bool × F)
observations id [] = []
observations id (observed rig online moment ∷ past) =
    let before = observations id past in if rig == id then (online, moment) ∷ before else before
observations id (job_ended rig completed moment ∷ past) = observations id past
observations id (forgotten rig ∷ past) =
    let before = observations id past in if rig == id then [] else before

module _ {F : Type 0} (f : Floats F) where
  abbrev pub call : Call F → Ledger F → Ledger F
  call (observed rig online moment) rigs = observe f rig online moment rigs
  call (job_ended rig completed moment) rigs = record_job f rig completed moment rigs
  call (forgotten rig) rigs = forget f rig rigs

  -- a ledger that starts empty, after some calls
  unfoldable pub after_calls : List (Call F) → Ledger F
  after_calls [] = []
  after_calls (c ∷ past) = call c (after_calls past)

  -- The time between two observations counts: both found the rig online, and at most two minutes lie
  -- between them; a moment of zero is no moment.
  abbrev pub counts : Bool × F → Bool × F → Bool
  counts (online, moment) (online', moment') =
      online
      && online'
      && (not (f.eq moment' (f.of_ℕ 0))
          && (f.lt (f.of_ℕ 0) (f.sub moment moment') && f.le (f.sub moment moment') (f.of_ℕ 120)))

  -- the sum of the times that count, from the first on
  abbrev pub uptime_of : List (Bool × F) → F
  uptime_of [] = f.of_ℕ 0
  uptime_of (now ∷ []) = f.of_ℕ 0
  uptime_of (now ∷ last ∷ past) =
      let before = uptime_of (last ∷ past) in
      if counts now last then f.add before (f.sub now.1 last.1) else before

  abbrev last_time : List (Bool × F) → F
  last_time [] = f.of_ℕ 0
  last_time (last ∷ past) = last.1

  abbrev last_found : List (Bool × F) → Bool
  last_found [] = false
  last_found (last ∷ past) = last.0

  -- A rig has what its observations tell.
  record Tells (seen_so : List (Bool × F)) (rig : RigReliability F) : Type 0 where
    credit : rig.uptime ≡ uptime_of seen_so
    time : rig.last_seen ≡ last_time seen_so
    found : rig.last_online ≡ last_found seen_so
