-- ===== src/Tests/Schedule.antt =====
-- Ticks of the scheduler.
use open_neotrader.Base.{true, false, none, some, [], ◌∷◌}
use open_neotrader.Number.{nan}
use open_neotrader.Scheduler.State.{SchedulerConfig, SchedulerExternal, Scheduler, default_config}
use open_neotrader.Scheduler.Cycle.{ConfigPatch}
use open_neotrader.Scheduler.Bounds.{
  ticks, runs, updates, IsConfigured, take_steps, take_steps-IsConfigured,
}
use open_neotrader.Tests.{first_number}

-- Everything works, and no cycle is in progress.
abbrev outside : SchedulerExternal
outside = record {
  store_works = λ _. true;
  now = λ n. n;
  active_plugins = λ _. none;
  cycle_running = λ _. false;
  reflection_works = λ _. true;
  arithmetic = first_number;
  fault_text = λ _. "failed";
}

abbrev daily : SchedulerConfig
daily = record default_config {
  enabled = true;
  override_interval_ms = none;
  prompt = some "look at the market";
}

abbrev scheduler : Scheduler
scheduler = record {
  external = outside;
  calls_made = 0;
  config = some daily;
  breaker = none;
  every_n_cycles = none;
  cycle_counter = none;
  running = false;
  started = [];
}

abbrev to_nan : ConfigPatch
to_nan = record { enabled = none; override_interval_ms = some (some nan); prompt = none }

take_steps-IsConfigured_example :
    IsConfigured (take_steps (updates to_nan ∷ ticks ∷ runs none ∷ []) scheduler)
take_steps-IsConfigured_example =
    take_steps-IsConfigured (updates to_nan ∷ ticks ∷ runs none ∷ []) scheduler tt
