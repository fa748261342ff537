-- ===== src/Rigs/Ledger.antt =====
-- rigs/validator/scoring/reliability.py: `UptimeLedger`. Reading and writing its file is not modelled. `F` is the
-- type of floating-point numbers, in which seconds are counted.
pub mod History
use microtensor_subnet.Base.{
  ℕ, ◌+◌, String, Bool, true, false, List, [], ◌∷◌, not, ◌&&◌, if◌then◌else◌,
}
use microtensor_subnet.Base.Dict.{Dict, get_or, put, pop}
use microtensor_subnet.Base.Floats.{Floats}

pub record RigReliability (F : Type 0) : Type 0 where
  pub uptime : F
  pub completed_jobs : ℕ
  pub failed_jobs : ℕ
  pub first_seen : F
  pub last_seen : F
  pub last_online : Bool

abbrev pub Ledger : Type 0 → Type 0
Ledger F = Dict (RigReliability F)

module _ {F : Type 0} (f : Floats F) where
  -- MAX_GAP_SECONDS
  abbrev pub max_gap : F
  max_gap = f.of_ℕ 120

  -- RigReliability(first_seen=...)
  abbrev pub fresh : F → RigReliability F
  fresh moment = record {
    uptime = f.of_ℕ 0;
    completed_jobs = 0;
    failed_jobs = 0;
    first_seen = moment;
    last_seen = f.of_ℕ 0;
    last_online = false;
  }

  -- rig.uptime_seconds += gap, where the gap is above zero and within the limit
  abbrev pub with_gap : F → F → F
  with_gap uptime gap = if f.lt (f.of_ℕ 0) gap && f.le gap max_gap then f.add uptime gap else uptime

  unfoldable pub credited : Bool → F → RigReliability F → F
  credited online moment rig =
      if not (f.eq rig.last_seen (f.of_ℕ 0)) && rig.last_online && online
      then with_gap rig.uptime (f.sub moment rig.last_seen)
      else rig.uptime

  unfoldable pub seen : Bool → F → RigReliability F → RigReliability F
  unfolding credited
  seen online moment rig = record rig {
    uptime = credited online moment rig;
    last_seen = moment;
    last_online = online;
  }

  -- `observe`
  unfoldable pub observe : String → Bool → F → Ledger F → Ledger F
  unfolding seen get_or put
  observe rig_id online moment rigs =
      put rig_id (seen online moment (get_or rig_id (fresh moment) rigs)) rigs

  abbrev pub with_job : Bool → RigReliability F → RigReliability F
  with_job true rig = record rig { completed_jobs = rig.completed_jobs + 1 }
  with_job false rig = record rig { failed_jobs = rig.failed_jobs + 1 }

  -- `record_job`
  unfoldable pub record_job : String → Bool → F → Ledger F → Ledger F
  unfolding get_or put
  record_job rig_id completed moment rigs =
      put rig_id (with_job completed (get_or rig_id (fresh moment) rigs)) rigs

  -- `forget`
  unfoldable pub forget : String → Ledger F → Ledger F
  unfolding pop
  forget rig_id rigs = pop rig_id rigs

  -- max(a, b), which gives the first of equals
  abbrev longer : F → F → F
  longer a b = if f.lt a b then b else a

  -- `apply_server_uptime`
  unfoldable pub apply_server_uptime : Dict F → F → Ledger F → Ledger F
  unfolding get_or put
  apply_server_uptime [] moment rigs = rigs
  apply_server_uptime ((rig_id, uptime) ∷ more) moment rigs =
      let rig : RigReliability F = get_or rig_id (fresh moment) rigs in
      apply_server_uptime more moment
        (put rig_id (record rig { uptime = longer rig.uptime uptime }) rigs)
