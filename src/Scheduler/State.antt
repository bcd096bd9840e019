-- ===== src/Scheduler/State.antt =====
-- The state of apps/api/src/scheduler/cycle-scheduler.service.ts: its keys of the key-value table, which
-- hold JSON, its field `running`, the cycles that it started, and what the outside answers by the
-- number of the call.
use open_neotrader.Base.{
  ℕ, suc, String, Bool, Option, none, some, false, List, if◌then◌else◌, or_default,
}
use open_neotrader.Number.{Number, is_finite}
use open_neotrader.Exec.{Exec, Fault, database, ok, err, gets, modify, quietly, ◌>>◌}
use open_neotrader.Execution.Account.{Arithmetic}
use open_neotrader.Store.Rows.{Breaker, closed}

-- `SchedulerConfig`; `next_run` is computed where it is shown, and is no part of what is kept
pub record SchedulerConfig : Type 0 where
  pub enabled : Bool
  pub override_interval_ms : Option Number
  pub prompt : Option String
  pub last_run : Option ℕ
  pub run_count : ℕ

-- the section `[scheduler]` of a manifest
pub record ManifestSchedule : Type 0 where
  pub mode : Option String
  pub timeframe : Option String
  pub interval_ms : Option Number

-- what the scheduler reads of an active plugin, its own settings first
pub record ActivePlugin : Type 0 where
  pub plugin_id : ℕ
  pub config_timeframe : Option String
  pub config_interval_ms : Option Number
  pub schedule : Option ManifestSchedule

pub record SchedulerExternal : Type 0 where
  pub store_works : ℕ → Bool
  pub now : ℕ → ℕ
  -- the active plugins with their manifests, none where a reading throws
  pub active_plugins : ℕ → Option (List ActivePlugin)
  -- whether a cycle is in progress, which ends on its own
  pub cycle_running : ℕ → Bool
  pub reflection_works : ℕ → Bool
  pub arithmetic : Arithmetic
  -- the message of what was thrown, and its first 200 characters
  pub fault_text : Fault → String

pub record Scheduler : Type 0 where
  pub external : SchedulerExternal
  pub calls_made : ℕ
  -- none where the key is missing or its text is no JSON
  pub config : Option SchedulerConfig
  pub breaker : Option Breaker
  -- `every_n_cycles` of the key `reflection`, if it is a number there
  pub every_n_cycles : Option Number
  -- what `parseInt` makes of the key `reflection.cycle_counter`
  pub cycle_counter : Option Number
  pub running : Bool
  -- the prompts of the cycles that were started, newest first
  pub started : List (Option String)

abbrev pub Task : Type 0 → Type 0
Task = Exec Scheduler

-- a call of the key-value table, which may fail
unfoldable pub store_call : Task (Unit {0})
store_call w = (
  if w.external.store_works w.calls_made then ok tt else err database,
  record w { calls_made = suc w.calls_made },
)

-- a question to the outside
unfoldable pub ask : {A : Type 0} → (SchedulerExternal → ℕ → A) → Task A
ask f w = (ok (f w.external w.calls_made), record w { calls_made = suc w.calls_made })

unfoldable pub store_write : (Scheduler → Scheduler) → Task (Unit {0})
store_write f = store_call >> modify f

-- `JSON.stringify` writes `null` for a number that is not finite
abbrev pub json_number : Option Number → Option Number
json_number none = none
json_number (some n) = if is_finite n then some n else none

-- the configuration that is read back after it was written
abbrev pub stored : SchedulerConfig → SchedulerConfig
stored c = record c { override_interval_ms = json_number c.override_interval_ms }

unfoldable pub write_config : SchedulerConfig → Task (Unit {0})
write_config c = store_write (λ w. record w { config = some (stored c) })

-- `_saveCb`
unfoldable pub save_cb : Breaker → Task (Unit {0})
save_cb b = store_write (λ w. record w { breaker = some b })

-- `DEFAULT_CONFIG`
abbrev pub default_config : SchedulerConfig
default_config = record {
  enabled = false;
  override_interval_ms = none;
  prompt = none;
  last_run = none;
  run_count = 0;
}

-- `CLOSED_CB`
abbrev pub closed_cb : Breaker
closed_cb = record {
  phase = closed;
  consecutive_failures = 0;
  last_failure_at = none;
  last_success_at = none;
  reason = none;
}

-- `getConfig`
unfoldable pub get_config : Task SchedulerConfig
get_config = store_call >> gets (λ w. or_default w.config default_config)

-- `getCircuitBreaker`
unfoldable pub get_circuit_breaker : Task Breaker
get_circuit_breaker = store_call >> gets (λ w. or_default w.breaker closed_cb)

-- `resetCircuitBreaker`; `KvService.delete` logs a failure and returns
unfoldable pub reset_circuit_breaker : Task (Unit {0})
reset_circuit_breaker = quietly (store_write (λ w. record w { breaker = none }))
