-- ===== src/Scheduler/Cycle.antt =====
-- The operations of apps/api/src/scheduler/cycle-scheduler.service.ts: the settings, the interval, the
-- tick with its circuit breaker, the cadence of reflections, and the cycle that an operator starts. The
-- `runCycle` of the cycle executor starts a cycle unless one is in progress, and does not wait for it.
use text.Mathlib.Text.{◌==◌ as str_eq}
use open_neotrader.Base.{
  ℕ, suc, ◌+◌, String, Bool, true, false, not, ◌&&◌, ◌||◌, Option, none, some, List, [], ◌∷◌, ltb,
  leb, ◌==◌, if◌then◌else◌, or_default, map,
}
use open_neotrader.Number.{
  Number, pos_inf, num_of, zero_num, num_lt, num_le, num_max, num_min, is_nan,
}
use open_neotrader.Exec.{
  Fault, invalid_interval, cycle_in_progress, Result, ok, err, pure, raise, gets, modify, attempt,
  ensuring, skip, ◌>>=◌, ◌>>◌, on_result,
}
use open_neotrader.Execution.Account.{Arithmetic}
use open_neotrader.Store.Rows.{Breaker, BreakerPhase, closed, open_phase, half_open}
use open_neotrader.Scheduler.State.{
  SchedulerConfig, ManifestSchedule, ActivePlugin, SchedulerExternal, Scheduler, Task, store_call,
  ask, store_write, write_config, save_cb, get_config, get_circuit_breaker,
}

abbrev pub min_interval_ms : ℕ
min_interval_ms = 60000

abbrev pub max_interval_ms : ℕ
max_interval_ms = 604800000

abbrev pub default_interval_ms : ℕ
default_interval_ms = 3600000

abbrev pub cb_max_failures : ℕ
cb_max_failures = 3

abbrev pub cb_half_open_ms : ℕ
cb_half_open_ms = 300000

-- The argument of `updateConfig`: each field may be left out, be there as null or undefined, or have a
-- value.
pub record ConfigPatch : Type 0 where
  pub enabled : Option (Option Bool)
  pub override_interval_ms : Option (Option Number)
  pub prompt : Option (Option String)

unfoldable pub is_out_of_bounds : Number → Bool
is_out_of_bounds n = num_lt n (num_of min_interval_ms) || num_lt (num_of max_interval_ms) n

-- whether the patch names an interval that is refused
abbrev pub is_refused : Option (Option Number) → Bool
is_refused (some (some n)) = is_out_of_bounds n
is_refused _ = false

-- a field that is there without a value overwrites, and is read as not enabled
abbrev enabled_after : Option (Option Bool) → Bool → Bool
enabled_after none old = old
enabled_after (some value) old = or_default value false

abbrev pub patched : ConfigPatch → SchedulerConfig → SchedulerConfig
patched patch c = record c {
  enabled = enabled_after patch.enabled c.enabled;
  override_interval_ms = or_default patch.override_interval_ms c.override_interval_ms;
  prompt = or_default patch.prompt c.prompt;
}

-- `updateConfig`
unfoldable pub update_config : ConfigPatch → Task SchedulerConfig
update_config patch = do
  current ← get_config
  let updated : SchedulerConfig = patched patch current
  if is_refused patch.override_interval_ms
      then raise invalid_interval
      else write_config updated >> pure updated

-- `PluginSchedule`
pub record PluginSchedule : Type 0 where
  pub plugin_id : ℕ
  pub interval_ms : Number
  pub timeframe : String

-- `TIMEFRAME_TO_MS`
abbrev pub timeframe_to_ms : String → Option ℕ
timeframe_to_ms s =
    if str_eq s "1m"
    then some 60000
    else if str_eq s "5m"
    then some 300000
    else if str_eq s "15m"
    then some 900000
    else if str_eq s "1h"
    then some 3600000
    else if str_eq s "4h"
    then some 14400000
    else if str_eq s "1d"
    then some 86400000
    else if str_eq s "1w"
    then some 604800000
    else if str_eq s "1mo"
    then some 2592000000
    else none

abbrev first_of : {A : Type 0} → Option A → Option A → A → A
first_of (some a) b c = a
first_of none b c = or_default b c

abbrev is_automatic : Option String → Bool
is_automatic none = true
is_automatic (some mode) = not (str_eq mode "none" || str_eq mode "reactive")

abbrev schedule_of : ActivePlugin → ManifestSchedule → PluginSchedule
schedule_of p s =
    let timeframe = first_of p.config_timeframe s.timeframe "1d" in
    let by_timeframe = num_of (or_default (timeframe_to_ms timeframe) default_interval_ms) in
    record {
      plugin_id = p.plugin_id;
      interval_ms = first_of p.config_interval_ms s.interval_ms by_timeframe;
      timeframe = timeframe;
    }

abbrev add_schedule :
    Option ManifestSchedule → ActivePlugin → List PluginSchedule → List PluginSchedule
add_schedule none p rest = rest
add_schedule (some s) p rest = if is_automatic s.mode then schedule_of p s ∷ rest else rest

abbrev pub schedules_of : List ActivePlugin → List PluginSchedule
schedules_of [] = []
schedules_of (p ∷ ps) = add_schedule p.schedule p (schedules_of ps)

abbrev pub schedules_or_none : Option (List ActivePlugin) → List PluginSchedule
schedules_or_none none = []
schedules_or_none (some ps) = schedules_of ps

-- `resolvePluginSchedules`
unfoldable pub resolve_plugin_schedules : Task (List PluginSchedule)
resolve_plugin_schedules = do
  active ← ask (λ e n. e.active_plugins n)
  pure (schedules_or_none active)

-- `Math.min(...intervals)`
abbrev pub min_of : List Number → Number
min_of [] = pos_inf
min_of (n ∷ ns) = num_min n (min_of ns)

abbrev pub interval_of_plugins : List PluginSchedule → Number
interval_of_plugins [] = num_of default_interval_ms
interval_of_plugins (s ∷ schedules) =
    num_max (min_of (map (λ p. p.interval_ms) (s ∷ schedules))) (num_of min_interval_ms)

-- `computeEffectiveInterval`
unfoldable pub compute_effective_interval : SchedulerConfig → List PluginSchedule → Number
compute_effective_interval c schedules =
    or_default c.override_interval_ms (interval_of_plugins schedules)

-- a failure that lies less than five minutes back
abbrev pub is_cooling : ℕ → Breaker → Bool
is_cooling time cb = ltb time (or_default cb.last_failure_at 0 + cb_half_open_ms)

abbrev pub is_open_phase : BreakerPhase → Bool
is_open_phase open_phase = true
is_open_phase closed = false
is_open_phase half_open = false

abbrev is_half_open : BreakerPhase → Bool
is_half_open half_open = true
is_half_open closed = false
is_half_open open_phase = false

-- `checkCircuitBreaker`: whether the tick goes on
unfoldable pub check_circuit_breaker : Breaker → Task Bool
check_circuit_breaker cb =
    if is_open_phase cb.phase
    then (do
      time ← ask (λ e n. e.now n)
      if is_cooling time cb
          then pure false
          else save_cb (record cb { phase = half_open }) >> pure true)
    else pure true

-- `runCycle` of the cycle executor: whether it is accepted
unfoldable pub run_cycle : Option String → Task Bool
run_cycle prompt = do
  busy ← ask (λ e n. e.cycle_running n)
  if busy then pure false else modify (λ w. record w { started = prompt ∷ w.started }) >> pure true

-- `_bumpRunCount`
abbrev pub bumped : SchedulerConfig → ℕ → SchedulerConfig
bumped c time = record c { last_run = some time; run_count = suc c.run_count }

unfoldable pub bump_run_count : SchedulerConfig → Task (Unit {0})
bump_run_count c = do time ← ask (λ e n. e.now n); write_config (bumped c time)

-- `parseInt(…) || 0`
abbrev count_of : Option Number → Number
count_of none = zero_num
count_of (some n) = if is_nan n then zero_num else n

unfoldable pub write_counter : Number → Task (Unit {0})
write_counter n = store_write (λ w. record w { cycle_counter = some n })

-- the reflection, whose failure is logged and leaves the counter as it is
unfoldable pub reflect : Task (Unit {0})
reflect = do
  works ← ask (λ e n. e.reflection_works n)
  if works then (do attempt (write_counter zero_num); skip) else skip

unfoldable pub count_cycle : Number → Task (Unit {0})
count_cycle every = do
  store_call
  stored ← gets (λ w. w.cycle_counter)
  a ← gets (λ w. w.external.arithmetic)
  let counter : Number = a.add (count_of stored) (num_of 1)
  if num_le every counter then reflect else write_counter counter

-- the cadence, or the default where the key cannot be read
abbrev cadence_after : Result (Unit {0}) → Number → Number
cadence_after (ok _) n = n
cadence_after (err _) n = num_of 10

unfoldable pub read_cadence : Task Number
read_cadence = do
  read ← attempt store_call
  every ← gets (λ w. or_default w.every_n_cycles (num_of 10))
  pure (cadence_after read every)

abbrev is_zero : Number → Bool
is_zero n = num_le n zero_num && num_le zero_num n

-- `_maybeReflect`
unfoldable pub maybe_reflect : Task (Unit {0})
maybe_reflect = do
  busy ← ask (λ e n. e.cycle_running n)
  let counted : Task (Unit {0}) = do
    every ← read_cadence
    if is_zero every then skip else count_cycle every
  if busy then skip else counted

-- the breaker after an accepted cycle, and after a failure
abbrev pub after_success : Breaker → ℕ → Breaker
after_success cb time = record {
  phase = closed;
  consecutive_failures = 0;
  last_failure_at = cb.last_failure_at;
  last_success_at = some time;
  reason = none;
}

abbrev pub after_failure : Breaker → ℕ → String → Breaker
after_failure cb time message = record {
  phase =
      if leb cb_max_failures (suc cb.consecutive_failures) || is_half_open cb.phase
      then open_phase
      else closed;
  consecutive_failures = suc cb.consecutive_failures;
  last_failure_at = some time;
  last_success_at = cb.last_success_at;
  reason = some message;
}

-- `handleTickError`
unfoldable pub handle_tick_error : Fault → Breaker → Task (Unit {0})
handle_tick_error e cb = do
  message ← gets (λ w. w.external.fault_text e)
  time ← ask (λ x n. x.now n)
  save_cb (after_failure cb time message)

-- `executeTick` inside its `try`
unfoldable pub run_and_record : SchedulerConfig → Breaker → Task (Unit {0})
run_and_record c cb = do
  accepted ← run_cycle c.prompt
  let recorded : Task (Unit {0}) = do
    time ← ask (λ e n. e.now n)
    save_cb (after_success cb time)
    bump_run_count c
    maybe_reflect
  if accepted then recorded else skip

-- `executeTick`
unfoldable pub execute_tick : SchedulerConfig → Breaker → Task (Unit {0})
execute_tick c cb = do
  outcome ← attempt (run_and_record c cb)
  on_result outcome pure (λ e. handle_tick_error e cb)

abbrev pub released : Scheduler → Scheduler
released w = record w { running = false }

unfoldable pub set_running : Task (Unit {0})
set_running = modify (λ w. record w { running = true })

-- whether the interval since the last run has passed
abbrev pub is_due : SchedulerExternal → SchedulerConfig → Number → ℕ → Bool
is_due e c interval time =
    not (num_lt (num_of time) (e.arithmetic.add (num_of (or_default c.last_run 0)) interval))

-- `tick` once the circuit breaker lets it go on
unfoldable pub tick_if_due : SchedulerConfig → Breaker → Task (Unit {0})
tick_if_due c cb = do
  schedules ← resolve_plugin_schedules
  time ← ask (λ e n. e.now n)
  e ← gets (λ w. w.external)
  let run : Task (Unit {0}) = do
    busy ← ask (λ x n. x.cycle_running n)
    if busy then skip else ensuring (set_running >> execute_tick c cb) released
  if is_due e c (compute_effective_interval c schedules) time then run else skip

-- `tick` with its settings
unfoldable pub tick_enabled : SchedulerConfig → Task (Unit {0})
tick_enabled c = do
  cb ← get_circuit_breaker
  goes_on ← check_circuit_breaker cb
  if goes_on then tick_if_due c cb else skip

-- `tick`
unfoldable pub tick : Task (Unit {0})
tick = do
  running ← gets (λ w. w.running)
  let enabled : Task (Unit {0}) = do c ← get_config; if c.enabled then tick_enabled c else skip
  if running then skip else enabled

-- `runNow` once the field `running` is set
unfoldable pub start_now : Option String → Task (Unit {0})
start_now prompt = do
  accepted ← run_cycle prompt
  let counted : Task (Unit {0}) = do c ← get_config; bump_run_count c
  if accepted then counted else raise cycle_in_progress

-- `runNow`
unfoldable pub run_now : Option String → Task (Unit {0})
run_now prompt = do
  running ← gets (λ w. w.running)
  let idle : Task (Unit {0}) = do
    busy ← ask (λ e n. e.cycle_running n)
    if busy then raise cycle_in_progress else ensuring (set_running >> start_now prompt) released
  if running then raise cycle_in_progress else idle

-- `SchedulerStatus`
pub record SchedulerStatus : Type 0 where
  pub config : SchedulerConfig
  pub next_run : Option Number
  pub effective_interval_ms : Number
  pub plugin_schedules : List PluginSchedule
  pub running_now : Bool
  pub circuit_breaker : Breaker

abbrev next_run_of : Arithmetic → Bool → Option ℕ → Number → Option Number
next_run_of a enabled none interval = none
next_run_of a enabled (some last) interval =
    if enabled && not (last == 0) then some (a.add (num_of last) interval) else none

-- `getStatus`
unfoldable pub get_status : Task SchedulerStatus
get_status = do
  c ← get_config
  schedules ← resolve_plugin_schedules
  cb ← get_circuit_breaker
  a ← gets (λ w. w.external.arithmetic)
  running ← gets (λ w. w.running)
  let interval : Number = compute_effective_interval c schedules
  pure (record {
    config = c;
    next_run = next_run_of a c.enabled c.last_run interval;
    effective_interval_ms = interval;
    plugin_schedules = schedules;
    running_now = running;
    circuit_breaker = cb;
  })
