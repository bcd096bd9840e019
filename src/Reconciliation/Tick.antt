-- ===== src/Reconciliation/Tick.antt =====
-- The steady-state loop of real-broker-reconciliation.service.ts: its interval, its circuit breaker
-- and one tick.
pub mod Keeps
pub mod Safety
pub mod Circuit
pub mod Progress
use open_neotrader.Base.{
  ℕ, suc, String, Bool, true, false, not, ◌||◌, ◌+◌, Option, none, some, ltb, leb, if◌then◌else◌,
  or_default,
}
use open_neotrader.Number.{Number, num_lt, num_of, is_finite}
use open_neotrader.Exec.{
  Fault, Result, ok, err, pure, gets, attempt, ensuring, skip, quietly, ◌>>=◌, ◌>>◌, on_result,
}
use open_neotrader.Common.Kv.{kv_num}
use open_neotrader.Common.Halt.{halt_real_execution}
use open_neotrader.Store.Rows.{
  Breaker, BreakerPhase, closed, open_phase, half_open, reconciliation_halted, critical,
}
use open_neotrader.Store.World.{World, Action, Done}
use open_neotrader.Store.Calls.{
  now, read_db, kv_read, set_tick_running, create_alert, write_breaker,
}
use open_neotrader.Reconciliation.Sweep.{or_null, reconcile_all_open_orders}
use open_neotrader.Reconciliation.Portfolio.Sync.{
  sync_portfolio_at_startup, maybe_sync_portfolio_on_tick,
}

abbrev reconcile_interval_key : String
reconcile_interval_key = "execution.real_reconciliation_interval_ms"

abbrev pub min_reconcile_interval_ms : ℕ
min_reconcile_interval_ms = 5000

abbrev default_reconcile_interval_ms : ℕ
default_reconcile_interval_ms = 15000

abbrev pub clamp_interval : Number → Number
clamp_interval ms =
    if not (is_finite ms) || num_lt ms (num_of min_reconcile_interval_ms)
    then num_of min_reconcile_interval_ms
    else ms

-- `_readIntervalMs`
unfoldable pub read_interval_ms : Action Number
read_interval_ms = do
  readers ← gets (λ w. w.external.readers)
  raw ← attempt (kv_read reconcile_interval_key)
  pure (clamp_interval (kv_num readers (or_null raw) (num_of default_reconcile_interval_ms)))

abbrev pub cb_max_failures : ℕ
cb_max_failures = 3

abbrev pub cb_half_open_ms : ℕ
cb_half_open_ms = 300000

-- `CLOSED_CB`
abbrev pub closed_cb : Breaker
closed_cb = record {
  phase = closed;
  consecutive_failures = 0;
  last_failure_at = none;
  last_success_at = none;
  reason = none;
}

abbrev stored_or_closed : Result (Option Breaker) → Breaker
stored_or_closed (ok stored) = or_default stored closed_cb
stored_or_closed (err _) = closed_cb

-- `getCircuitBreaker`
unfoldable pub get_circuit_breaker : Action Breaker
get_circuit_breaker = do raw ← attempt (read_db (λ db. db.breaker)); pure (stored_or_closed raw)

abbrev pub is_half_open : BreakerPhase → Bool
is_half_open half_open = true
is_half_open closed = false
is_half_open open_phase = false

abbrev pub is_open_phase : BreakerPhase → Bool
is_open_phase open_phase = true
is_open_phase closed = false
is_open_phase half_open = false

-- whether a failed tick opens the breaker
abbrev pub is_tripped : Breaker → Bool
is_tripped cb = leb cb_max_failures (suc cb.consecutive_failures) || is_half_open cb.phase

abbrev pub after_failure : Breaker → ℕ → String → Breaker
after_failure cb time reason = record {
  phase = if is_tripped cb then open_phase else closed;
  consecutive_failures = suc cb.consecutive_failures;
  last_failure_at = some time;
  last_success_at = cb.last_success_at;
  reason = some reason;
}

unfoldable pub announce_halt : Action Done
announce_halt = do
  quietly (
      create_alert (record {
        kind = reconciliation_halted;
        severity = critical;
        symbol = none;
        resolved = false;
      }))
  quietly (halt_real_execution "reconciliation circuit breaker open")

-- `_handleTickFailure`
unfoldable pub handle_tick_failure : Fault → Breaker → Action Done
handle_tick_failure e cb = do
  external ← gets (λ w. w.external)
  time ← now
  write_breaker (after_failure cb time (external.readers.first_200 (external.fault_text e)))
  if is_tripped cb then (if is_open_phase cb.phase then skip else announce_halt) else skip

abbrev pub after_success : Breaker → ℕ → Breaker
after_success cb time = record {
  phase = closed;
  consecutive_failures = 0;
  last_failure_at = cb.last_failure_at;
  last_success_at = some time;
  reason = none;
}

unfoldable pub reconcile_and_record : Breaker → Action Done
reconcile_and_record cb = do
  outcome ←
      attempt (do reconcile_all_open_orders; time ← now; write_breaker (after_success cb time))
  on_result outcome (λ _. skip) (λ e. handle_tick_failure e cb)

-- the guarded part of `tick`
unfoldable pub run_tick : Breaker → Action Done
run_tick cb = do
  set_tick_running true
  ensuring (reconcile_and_record cb) (λ w. record w { tick_running = false })

abbrev pub is_cooling_down : Breaker → ℕ → Bool
is_cooling_down cb time = ltb time (or_default cb.last_failure_at 0 + cb_half_open_ms)

abbrev pub probe : Breaker → Breaker
probe cb = record cb { phase = half_open }

unfoldable pub run_open_tick : Breaker → Action Done
run_open_tick cb = do
  time ← now
  if is_cooling_down cb time then skip else write_breaker (probe cb) >> run_tick (probe cb)

unfoldable pub reconcile_tick : Action Done
reconcile_tick = do
  cb ← get_circuit_breaker
  if is_open_phase cb.phase then run_open_tick cb else run_tick cb

-- `tick`
unfoldable pub tick : Action Done
tick = do
  maybe_sync_portfolio_on_tick
  running ← gets (λ w. w.tick_running)
  if running then skip else reconcile_tick

-- `onModuleInit`, which returns the interval of the timer that it starts
unfoldable pub on_module_init : Action Number
on_module_init = do sync_portfolio_at_startup; tick; read_interval_ms
