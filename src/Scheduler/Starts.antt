-- ===== src/Scheduler/Starts.antt =====
-- When a tick of cycle-scheduler.service.ts starts a cycle.
use open_neotrader.Base.{ℕ, String, ◌≡◌, Bool, Option, List, ◌∷◌, ◌⊎◌, ◌≤◌}
use open_neotrader.Exec.Leads.{Leads}
use open_neotrader.Store.Rows.{Breaker}
use open_neotrader.Scheduler.State.{SchedulerConfig, SchedulerExternal, Scheduler}

abbrev AnyConfig : SchedulerConfig → Type 0
AnyConfig c = Unit

-- The outside, the cycles that were started, and a number of calls that were made.
abbrev Told : SchedulerExternal → List (Option String) → ℕ → Scheduler → Type 0
Told e s calls w = (w.external ≡ e) × (w.started ≡ s) × (calls ≤ w.calls_made)

-- No cycle more than these was started, or one, for a reason.
abbrev pub IsStarted : List (Option String) → Option String → Type 0 → Scheduler → Type 0
IsStarted s prompt Reason w = (w.started ≡ s) ⊎ ((w.started ≡ prompt ∷ s) × Reason)

-- the world as a tick finds it
abbrev AtStart :
    SchedulerExternal
    → List (Option String)
    → ℕ
    → Bool
    → Option SchedulerConfig
    → Option Breaker
    → Scheduler
    → Type 0
AtStart e s calls running config breaker w =
    Told e s calls w × (w.running ≡ running) × (w.config ≡ config) × (w.breaker ≡ breaker)
