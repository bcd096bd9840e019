-- ===== src/Reconciliation/Tick/Circuit.antt =====
-- The circuit breaker of the reconciliation loop, and the bounds of its interval.
use open_neotrader.Base.{ℕ, suc, ◌≡◌, refl, true, false, some, Bool-cases, inl, inr}
use open_neotrader.Number.{Number, num_lt, num_of, is_finite, num_lt_irrefl}
use open_neotrader.Exec.{Fault, ok, ◌>>=◌}
use open_neotrader.Common.Kv.{not_string}
use open_neotrader.Common.Halt.{IsHalted}
use open_neotrader.Store.Rows.{Breaker, closed}
use open_neotrader.Store.World.{World}
use open_neotrader.Store.Calls.{now, read_db, db_call, write_breaker, create_alert}
use open_neotrader.RealOrder.Guards.{DatabaseWorks, halt-IsHalted}
use open_neotrader.Reconciliation.Tick.{
  clamp_interval, min_reconcile_interval_ms, read_interval_ms, is_open_phase, is_tripped,
  announce_halt, handle_tick_failure, is_cooling_down, get_circuit_breaker, run_open_tick,
  reconcile_tick,
}

is_finite-num_of : (n : ℕ) → is_finite (num_of n) ≡ true
unfolding num_of
is_finite-num_of n = refl

abbrev pub IsInterval : Number → Type 0
IsInterval ms = (is_finite ms ≡ true) × (num_lt ms (num_of min_reconcile_interval_ms) ≡ false)

clamp_interval-IsInterval : (ms : Number) → IsInterval (clamp_interval ms)
clamp_interval-IsInterval ms = elim (Bool-cases (is_finite ms)) [
  | inr e ↦ rw e (is_finite-num_of 5000, num_lt_irrefl (num_of 5000))
  | inl e ↦ elim (Bool-cases (num_lt ms (num_of 5000))) [
    | inl d ↦ rw (e, d) (is_finite-num_of 5000, num_lt_irrefl (num_of 5000))
    | inr d ↦ rw (e, d) (e, d)
  ]
]

-- The loop's interval is always usable: whatever the key-value table holds, and even where it cannot
-- be read, `_readIntervalMs` returns a finite number that is not below 5000.
pub read_interval_ms-IsInterval :
    (w : World) → (ms : Number) × (((read_interval_ms w).0 ≡ ok ms) × IsInterval ms)
unfolding read_interval_ms ◌>>=◌
read_interval_ms-IsInterval w = (_, (refl, clamp_interval-IsInterval _))

-- An open breaker rests: where the breaker that is read is open and its last failure lies less than
-- five minutes back, the tick reads it and the clock and does nothing else.
pub reconcile_tick_cooling :
    (w : World) {cb : Breaker}
    → w.external.db_works w.calls_made ≡ true
    → w.db.breaker ≡ some cb
    → is_open_phase cb.phase ≡ true
    → is_cooling_down cb (w.external.now (suc w.calls_made)) ≡ true
    → reconcile_tick w ≡ (ok tt, record w { calls_made = suc (suc w.calls_made) })
unfolding reconcile_tick get_circuit_breaker read_db db_call run_open_tick now ◌>>=◌
reconcile_tick_cooling w works stored is_open early = rw (works, stored, is_open, early) refl

announce_halt-IsHalted :
    (w : World)
    → DatabaseWorks w
    → w.external.readers.json_parse "true" ≡ not_string
    → IsHalted (announce_halt w).1
unfolding announce_halt create_alert db_call ◌>>=◌
announce_halt-IsHalted w works plain = rw (works w.calls_made) (halt-IsHalted _ _ works plain)

-- A failed tick that opens the breaker stops real trading: where the database works, `JSON.parse` does
-- not make a string of the text `true`, the breaker was not open, and this is the third failure in a
-- row or a failed probe, the kill-switch reads as set afterwards.
pub handle_tick_failure-IsHalted :
    (e : Fault) (cb : Breaker) (w : World)
    → DatabaseWorks w
    → w.external.readers.json_parse "true" ≡ not_string
    → is_open_phase cb.phase ≡ false
    → is_tripped cb ≡ true
    → IsHalted (handle_tick_failure e cb w).1
unfolding handle_tick_failure now write_breaker db_call ◌>>=◌
handle_tick_failure-IsHalted e cb w works plain not_open tripped =
    rw (works (suc w.calls_made), tripped, not_open) (announce_halt-IsHalted _ works plain)

-- A failed tick that does not open the breaker only counts: where the database works, the failure is
-- added to the breaker, which stays closed, and the key-value table, and so the kill-switch, is as it
-- was.
pub handle_tick_failure_counts :
    (e : Fault) (cb : Breaker) (w : World)
    → DatabaseWorks w
    → is_tripped cb ≡ false
    → ((handle_tick_failure e cb w).1.db.kv ≡ w.db.kv)
      × ((handle_tick_failure e cb w).1.db.breaker
          ≡ some (record {
            phase = closed;
            consecutive_failures = suc cb.consecutive_failures;
            last_failure_at = some (w.external.now w.calls_made);
            last_success_at = cb.last_success_at;
            reason = some (w.external.readers.first_200 (w.external.fault_text e));
          }))
unfolding handle_tick_failure now write_breaker db_call ◌>>=◌
handle_tick_failure_counts e cb w works tripped =
    rw (works (suc w.calls_made), tripped) (refl, refl)
