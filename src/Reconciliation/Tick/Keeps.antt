-- ===== src/Reconciliation/Tick/Keeps.antt =====
-- What a tick keeps.
use open_neotrader.Base.{true, false}
use open_neotrader.Exec.{Fault, modify}
use open_neotrader.Exec.Keeps.{
  Keeps, keeps_rules, Keeps-gets, Keeps-bind, Keeps-if, Keeps-skip, Keeps-ensuring,
}
use open_neotrader.Store.Rows.{Breaker}
use open_neotrader.Store.World.{World}
use open_neotrader.Store.Calls.{set_tick_running}
use open_neotrader.Store.Calls.Footprint.{
  Stable, Keeps-now, Keeps-read_db, Keeps-kv_read, Keeps-create_alert, Keeps-write_breaker,
  Keeps-set_tick_running,
}
use open_neotrader.RealOrder.Keeps.{Haltable, Keeps-halt_real_execution}
use open_neotrader.Reconciliation.Keeps.{Keeps-reconcile_all_open_orders}
use open_neotrader.Reconciliation.Portfolio.Keeps.{
  Keeps-sync_portfolio_at_startup, Keeps-maybe_sync_portfolio_on_tick,
}
use open_neotrader.Reconciliation.Tick.{
  read_interval_ms, get_circuit_breaker, is_tripped, is_open_phase, announce_halt,
  handle_tick_failure, reconcile_and_record, run_tick, is_cooling_down, run_open_tick,
  reconcile_tick, tick, on_module_init, probe,
}

module _ {P : World → Type 0} (s : Stable P) (t : Haltable P) where
  Keeps-get_circuit_breaker : Keeps P get_circuit_breaker
  unfolding get_circuit_breaker
  Keeps-get_circuit_breaker = search (keeps_rules, Keeps-read_db) depth 14

  Keeps-announce_halt : Keeps P announce_halt
  unfolding announce_halt
  Keeps-announce_halt = search (keeps_rules, Keeps-create_alert, Keeps-halt_real_execution) depth 14

  Keeps-handle_tick_failure : (e : Fault) (cb : Breaker) → Keeps P (handle_tick_failure e cb)
  unfolding handle_tick_failure
  Keeps-handle_tick_failure e cb = Keeps-bind _ _ (Keeps-gets _) λ external.
      Keeps-bind _ _ (Keeps-now s) λ time. Keeps-bind _ _ (Keeps-write_breaker s _) λ _.
        Keeps-if (is_tripped cb) _ _
          (Keeps-if (is_open_phase cb.phase) _ _ Keeps-skip Keeps-announce_halt) Keeps-skip

  Keeps-reconcile_and_record : (cb : Breaker) → Keeps P (reconcile_and_record cb)
  unfolding reconcile_and_record
  Keeps-reconcile_and_record cb =
      search
        (
          keeps_rules, Keeps-now, Keeps-write_breaker, Keeps-reconcile_all_open_orders,
          Keeps-handle_tick_failure,
        )
        depth 14

  stopped : (w : World) → P w → P (record w { tick_running = false })
  unfolding set_tick_running modify
  stopped w h = (Keeps-set_tick_running s false).at w h

  Keeps-run_tick : (cb : Breaker) → Keeps P (run_tick cb)
  unfolding run_tick
  Keeps-run_tick cb =
      Keeps-bind _ _ (Keeps-set_tick_running s true)
        λ _. Keeps-ensuring _ _ (Keeps-reconcile_and_record cb) stopped

  Keeps-run_open_tick : (cb : Breaker) → Keeps P (run_open_tick cb)
  unfolding run_open_tick
  Keeps-run_open_tick cb = Keeps-bind _ _ (Keeps-now s) λ time.
      Keeps-if (is_cooling_down cb time) _ _ Keeps-skip
        (Keeps-bind _ _ (Keeps-write_breaker s _) λ _. Keeps-run_tick (probe cb))

  Keeps-reconcile_tick : Keeps P reconcile_tick
  unfolding reconcile_tick
  Keeps-reconcile_tick =
      Keeps-bind _ _ Keeps-get_circuit_breaker
        λ cb. Keeps-if (is_open_phase cb.phase) _ _ (Keeps-run_open_tick cb) (Keeps-run_tick cb)

  pub Keeps-tick : Keeps P tick
  unfolding tick
  Keeps-tick = Keeps-bind _ _ (Keeps-maybe_sync_portfolio_on_tick s t) λ _.
      Keeps-bind _ _ (Keeps-gets _) λ running. Keeps-if running _ _ Keeps-skip Keeps-reconcile_tick

  Keeps-read_interval_ms : Keeps P read_interval_ms
  unfolding read_interval_ms
  Keeps-read_interval_ms = search (keeps_rules, Keeps-kv_read) depth 14

  pub Keeps-on_module_init : Keeps P on_module_init
  unfolding on_module_init
  Keeps-on_module_init =
      Keeps-bind _ _ (Keeps-sync_portfolio_at_startup s t)
        λ _. Keeps-bind _ _ Keeps-tick λ _. Keeps-read_interval_ms
