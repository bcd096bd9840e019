-- ===== src/Scheduler/Safety.antt =====
-- The scheduler's own state in cycle-scheduler.service.ts: the field that guards against two cycles at
-- once, and the interval that an operator sets.
use open_neotrader.Base.{String, ◌≡◌, refl, false, Option}
use open_neotrader.Exec.{ensuring}
use open_neotrader.Exec.Keeps.{Keeps, keeps_rules}
use open_neotrader.Store.Rows.{Breaker}
use open_neotrader.Scheduler.State.{SchedulerConfig, Scheduler, Task}
use open_neotrader.Scheduler.Cycle.{released, tick_if_due, tick_enabled, tick, run_now}
use open_neotrader.Scheduler.Keeps.{
  Quiet, Keeps-ask, Keeps-get_config, Keeps-get_circuit_breaker, Keeps-resolve_plugin_schedules,
  Keeps-check_circuit_breaker,
}

-- Nothing of the scheduler's is in progress.
abbrev pub IsIdle : Scheduler → Type 0
IsIdle w = w.running ≡ false

IsIdle-Quiet : Quiet (λ _. Unit) IsIdle
IsIdle-Quiet = record {
  at_rest = λ v w ext started running config later h. rw running h;
  at_bump = λ c time w fine h. h;
}

Keeps-released : {A : Type 0} (run : Task A) → Keeps IsIdle (ensuring run released)
unfolding ensuring
Keeps-released run = record { at = λ w h. refl }

ruleset idle_rules = (
  keeps_rules, IsIdle-Quiet, Keeps-ask, Keeps-get_config, Keeps-get_circuit_breaker,
  Keeps-resolve_plugin_schedules, Keeps-check_circuit_breaker,
)

Keeps-tick_if_due : (c : SchedulerConfig) (cb : Breaker) → Keeps IsIdle (tick_if_due c cb)
unfolding tick_if_due
Keeps-tick_if_due c cb = search (idle_rules, Keeps-released) depth 14

Keeps-tick : Keeps IsIdle tick
unfolding tick tick_enabled
Keeps-tick = search (idle_rules, Keeps-tick_if_due) depth 20

Keeps-run_now : (prompt : Option String) → Keeps IsIdle (run_now prompt)
unfolding run_now
Keeps-run_now prompt = search (idle_rules, Keeps-released) depth 20

-- The guard is always released: whatever a tick or a cycle started by hand meets, and even where it
-- throws, no later cycle is kept from starting by the field `running`, if none was before.
pub running_released :
    (prompt : Option String) (w : Scheduler)
    → IsIdle w
    → IsIdle (tick w).1 × IsIdle (run_now prompt w).1
running_released prompt w idle = (Keeps-tick.at w idle, (Keeps-run_now prompt).at w idle)
