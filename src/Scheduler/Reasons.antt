-- ===== src/Scheduler/Reasons.antt =====
-- The reasons for which a tick of cycle-scheduler.service.ts starts a cycle: what is known of its breaker,
-- its interval and the time.
use open_neotrader.Base.{
  ℕ, ◌≡◌, refl, Bool, true, false, List, [], ◌∷◌, map, ◌⊎◌, inl, inr, or_default, arith, ◌+◌, ◌≤◌,
  none, some, Option-cases,
}
use open_neotrader.Number.{Number, num_of, num_lt, num_max_upper}
use open_neotrader.Store.Rows.{Breaker}
use open_neotrader.Scheduler.State.{SchedulerConfig, SchedulerExternal}
use open_neotrader.Scheduler.Cycle.{
  PluginSchedule, compute_effective_interval, schedules_or_none, interval_of_plugins, min_of,
  is_open_phase, is_due,
}

-- A breaker that is not open, or whose last failure lies five minutes back at a time that the clock told
-- after so many calls.
abbrev pub HasRested : SchedulerExternal → ℕ → Breaker → Type 0
HasRested e calls cb =
    (is_open_phase cb.phase ≡ false)
    ⊎ ((n : ℕ) × (calls ≤ n) × (or_default cb.last_failure_at 0 + 300000 ≤ e.now n))

-- The interval of a configuration: the one that is set, or one of a minute at least.
abbrev pub IsInterval : SchedulerConfig → Number → Type 0
IsInterval c interval =
    (c.override_interval_ms ≡ some interval)
    ⊎ ((c.override_interval_ms ≡ none) × (num_lt interval (num_of 60000) ≡ false))

-- At a time that the clock told after so many calls, the interval, computed from what the active plugins
-- answered before, has passed since the last run.
abbrev pub HasPassed : SchedulerExternal → ℕ → SchedulerConfig → Type 0
HasPassed e calls c =
    (m : ℕ) × (n : ℕ) × (interval : Number) × (calls ≤ m)
    × (calls ≤ n)
    × (interval ≡ compute_effective_interval c (schedules_or_none (e.active_plugins m)))
    × IsInterval c interval
    × (num_lt (num_of (e.now n)) (e.arithmetic.add (num_of (or_default c.last_run 0)) interval)
        ≡ false)

-- Why a tick starts a cycle: none of the scheduler's is in progress, the scheduler is enabled, its
-- breaker is not open or has rested, and the interval since the last run has passed.
abbrev pub StartReason : SchedulerExternal → ℕ → Bool → SchedulerConfig → Breaker → Type 0
StartReason e calls running c cb =
    (running ≡ false) × (c.enabled ≡ true) × HasRested e calls cb × HasPassed e calls c

abbrev pub CanGo : SchedulerExternal → ℕ → Breaker → Bool → Type 0
CanGo e calls cb true = HasRested e calls cb
CanGo e calls cb false = Unit

interval_of_plugins-lower :
    (schedules : List PluginSchedule)
    → num_lt (interval_of_plugins schedules) (num_of 60000) ≡ false
unfolding num_of
interval_of_plugins-lower [] = refl
interval_of_plugins-lower (s ∷ schedules) =
    (num_max_upper (min_of (map (λ p. p.interval_ms) (s ∷ schedules))) (num_of 60000)).1

compute_effective_interval-IsInterval :
    (c : SchedulerConfig) (schedules : List PluginSchedule)
    → IsInterval c (compute_effective_interval c schedules)
unfolding compute_effective_interval
compute_effective_interval-IsInterval c schedules = elim (Option-cases c.override_interval_ms) [
  | inl unset ↦ inr (unset, rw unset (interval_of_plugins-lower schedules))
  | inr (x, is) ↦ inl (rw is refl)
]

pub due_passed :
    (e : SchedulerExternal) (calls : ℕ) (c : SchedulerConfig) (schedules : List PluginSchedule)
    (time : ℕ)
    → (m : ℕ) × (calls ≤ m) × (schedules ≡ schedules_or_none (e.active_plugins m))
    → (n : ℕ) × (calls ≤ n) × (time ≡ e.now n)
    → is_due e c (compute_effective_interval c schedules) time ≡ true
    → HasPassed e calls c
due_passed e calls c schedules time (m, later, plugins) (n, after, clock) due =
    let interval = compute_effective_interval c schedules in
    (
      m,
      n,
      interval,
      later,
      after,
      rw plugins refl,
      compute_effective_interval-IsInterval c schedules,
      ground (arith, rw clock at due),
    )
