-- ===== src/Scheduler/Keeps.antt =====
-- What the parts of cycle-scheduler.service.ts keep. `Ok` is what is known of the configuration that
-- they write back.
use open_neotrader.Base.{◌≡◌, ◌≤◌, refl, ℕ, some, arith}
use open_neotrader.Number.{Number}
use open_neotrader.Exec.{Fault}
use open_neotrader.Exec.Keeps.{Keeps, keeps_rules, Keeps-bind, Keeps-modify, Keeps-quietly}
use open_neotrader.Store.Rows.{Breaker}
use open_neotrader.Scheduler.State.{
  SchedulerConfig, SchedulerExternal, Scheduler, store_call, ask, save_cb, store_write,
  write_config, stored, get_config, get_circuit_breaker, reset_circuit_breaker,
}
use open_neotrader.Scheduler.Cycle.{
  resolve_plugin_schedules, check_circuit_breaker, bumped, bump_run_count, write_counter, reflect,
  count_cycle, read_cadence, maybe_reflect, handle_tick_error,
}

pub record Quiet (Ok : SchedulerConfig → Type 0) (P : Scheduler → Type 0) : Type 0 where
  -- the breaker, the counters and the number of calls
  pub at_rest :
      (v w : Scheduler)
      → v.external ≡ w.external
      → v.started ≡ w.started
      → v.running ≡ w.running
      → v.config ≡ w.config
      → w.calls_made ≤ v.calls_made
      → P w
      → P v
  pub at_bump :
      (c : SchedulerConfig) (time : ℕ) (w : Scheduler)
      → Ok c
      → P w
      → P (record w { config = some (stored (bumped c time)) })

module _ {Ok : SchedulerConfig → Type 0} {P : Scheduler → Type 0} (q : Quiet Ok P) where
  pub Keeps-store_call : Keeps P store_call
  unfolding store_call
  Keeps-store_call = record { at = λ w h. q.at_rest _ w refl refl refl refl (omega arith) h }

  pub Keeps-ask : {A : Type 0} (f : SchedulerExternal → ℕ → A) → Keeps P (ask f)
  unfolding ask
  Keeps-ask f = record { at = λ w h. q.at_rest _ w refl refl refl refl (omega arith) h }

  pub Keeps-save_cb : (b : Breaker) → Keeps P (save_cb b)
  unfolding save_cb store_write
  Keeps-save_cb b =
      Keeps-bind _ _ Keeps-store_call
        (λ _. Keeps-modify _ (λ w h. q.at_rest _ w refl refl refl refl (omega arith) h))

  pub Keeps-reset_circuit_breaker : Keeps P reset_circuit_breaker
  unfolding reset_circuit_breaker store_write
  Keeps-reset_circuit_breaker = Keeps-quietly _ (
      Keeps-bind _ _ Keeps-store_call
        (λ _. Keeps-modify _ (λ w h. q.at_rest _ w refl refl refl refl (omega arith) h)))

  pub Keeps-write_counter : (n : Number) → Keeps P (write_counter n)
  unfolding write_counter store_write
  Keeps-write_counter n =
      Keeps-bind _ _ Keeps-store_call
        (λ _. Keeps-modify _ (λ w h. q.at_rest _ w refl refl refl refl (omega arith) h))

  ruleset rest_rules =
      (keeps_rules, Keeps-store_call, Keeps-ask, Keeps-save_cb, Keeps-write_counter)

  pub Keeps-get_config : Keeps P get_config
  unfolding get_config
  Keeps-get_config = search rest_rules depth 8

  pub Keeps-get_circuit_breaker : Keeps P get_circuit_breaker
  unfolding get_circuit_breaker
  Keeps-get_circuit_breaker = search rest_rules depth 8

  pub Keeps-resolve_plugin_schedules : Keeps P resolve_plugin_schedules
  unfolding resolve_plugin_schedules
  Keeps-resolve_plugin_schedules = search rest_rules depth 8

  pub Keeps-check_circuit_breaker : (cb : Breaker) → Keeps P (check_circuit_breaker cb)
  unfolding check_circuit_breaker
  Keeps-check_circuit_breaker cb = search rest_rules depth 14

  pub Keeps-bump_run_count : (c : SchedulerConfig) → Ok c → Keeps P (bump_run_count c)
  unfolding bump_run_count write_config store_write
  Keeps-bump_run_count c fine = Keeps-bind _ _ (Keeps-ask _) (λ time.
      Keeps-bind _ _ Keeps-store_call (λ _. Keeps-modify _ (λ w h. q.at_bump c time w fine h)))

  Keeps-count_cycle : (n : Number) → Keeps P (count_cycle n)
  unfolding count_cycle reflect
  Keeps-count_cycle n = search rest_rules depth 14

  pub Keeps-maybe_reflect : Keeps P maybe_reflect
  unfolding maybe_reflect read_cadence
  Keeps-maybe_reflect = search (rest_rules, Keeps-count_cycle) depth 14

  pub Keeps-handle_tick_error : (e : Fault) (cb : Breaker) → Keeps P (handle_tick_error e cb)
  unfolding handle_tick_error
  Keeps-handle_tick_error e cb = search rest_rules depth 8
