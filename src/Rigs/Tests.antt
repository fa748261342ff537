-- ===== src/Rigs/Tests.antt =====
-- A rig that fails three probes in a row, and one that answers in between.
use microtensor_subnet.Base.{ℕ, ◌≡◌, refl, true, false, List, [], ◌∷◌, some, contains, length}
use microtensor_subnet.Base.Dict.{get_or}
use microtensor_subnet.Serving.Plan.Samples.{thousandths}
use microtensor_subnet.Rigs.Ledger.{Ledger, observe, record_job, forget, fresh, apply_server_uptime}
use microtensor_subnet.Rigs.Ledger.History.{
  Call, observed, job_ended, forgotten, observations, uptime_of,
}
use microtensor_subnet.Rigs.Express.{
  Rig, Card, Probe, fails, answers, probes, probe, new_lane, utilisation_signal, take_early_due,
  probe_fails, probe_answers, busy_without_assignment, idle_while_placed, owner_of,
}
use microtensor_subnet.Rigs.Express.Streaks.{early_due-probes, has_failures, answered}

abbrev alpha : Rig
alpha = record { id = "alpha"; hotkey = ""; jobs_running = 1 }

abbrev beta : Rig
beta = record { id = "beta"; hotkey = "owner"; jobs_running = 0 }

abbrev busy : List Card
busy = record { uuid = "gpu-0"; percent = 97; has_processes = false } ∷ []

abbrev events : List (Probe ℕ)
events =
    fails alpha 100
    ∷ fails beta 110
    ∷ fails alpha 120
    ∷ answers beta busy 130
    ∷ fails beta 140
    ∷ fails beta 150
    ∷ fails alpha 160
    ∷ answers alpha busy 170
    ∷ []

program : Unit {0}
unfolding probes probe probe_answers probe_fails utilisation_signal take_early_due observe
    record_job forget get_or apply_server_uptime owner_of
program = tt

due : (probes thousandths events (new_lane [])).early_due ≡ "alpha" ∷ []
unfolding program
due = refl

signals : length (probes thousandths events (new_lane [])).signals ≡ 2
unfolding program
signals = refl

unassigned : utilisation_signal beta busy ≡ some (busy_without_assignment ("gpu-0" ∷ []))
unfolding program
unassigned = refl

idle :
    utilisation_signal alpha (record { uuid = ""; percent = 3; has_processes = false } ∷ [])
    ≡ some (idle_while_placed 1)
unfolding program
idle = refl

-- A rig that is observed online after a minute, and again after five, by a clock in thousandths of a second.
abbrev day : Ledger ℕ
day = observe thousandths "alpha" true 365000 (
    record_job thousandths "alpha" true 65000
      (observe thousandths "alpha" true 65000 (observe thousandths "alpha" true 5000 [])))

-- The gap of five minutes is not credited.
credited_minute : (get_or "alpha" (fresh thousandths 0) day).uptime ≡ 60000
unfolding program
credited_minute = refl

forgotten_rig : forget thousandths "alpha" day ≡ []
unfolding program
forgotten_rig = refl

of_server :
    (get_or "alpha"
      (fresh thousandths 0)
      (apply_server_uptime thousandths (("alpha", 70000) ∷ []) 0 day)).uptime
    ≡ 70000
unfolding program
of_server = refl

early_due-probes_example :
    contains "alpha" (probes thousandths events (new_lane [])).early_due
    ≡ has_failures 3 (answered "alpha" events)
early_due-probes_example = early_due-probes thousandths "alpha" events []

-- alpha is forgotten, then seen online at 5, 65 and 365 seconds; beta in between.
abbrev history : List (Call ℕ)
history =
    observed "alpha" true 365000
    ∷ job_ended "alpha" true 70000
    ∷ observed "beta" true 68000
    ∷ observed "alpha" true 65000
    ∷ observed "alpha" true 5000
    ∷ forgotten "alpha"
    ∷ observed "alpha" true 1000
    ∷ []

uptime_minute : uptime_of thousandths (observations "alpha" history) ≡ 60000
uptime_minute = refl
