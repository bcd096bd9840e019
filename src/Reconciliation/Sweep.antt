-- ===== src/Reconciliation/Sweep.antt =====
-- The whole-ledger pass of real-broker-reconciliation.service.ts: the cancellation of orders that
-- stay open too long, and `reconcileAllOpenOrders`.
use open_neotrader.Base.{ℕ, String, Bool, false, ◌&&◌, Option, none, some, select}
use open_neotrader.Number.{Number, num_of}
use open_neotrader.Exec.{
  Result, ok, err, pure, gets, attempt, skip, quietly, ◌>>=◌, ◌>>◌, on_option, for_each,
}
use open_neotrader.Common.Kv.{Readers, kv_num}
use open_neotrader.Store.Rows.{RealOrder, custom, high}
use open_neotrader.Store.World.{Action, Done}
use open_neotrader.Store.Calls.{now, read_db, kv_read, cancel_order, create_alert}
use open_neotrader.RealOrder.Recover.{recover_inflight}
use open_neotrader.Reconciliation.Apply.{is_open, reconcile_order}

abbrev pub stale_order_timeout_key : String
stale_order_timeout_key = "execution.real_order_stale_timeout_ms"

abbrev default_stale_order_timeout_ms : ℕ
default_stale_order_timeout_ms = 1800000

abbrev pub or_null : Result (Option String) → Option String
or_null (ok v) = v
or_null (err _) = none

-- `_readStaleTimeoutMs`
unfoldable pub read_stale_timeout_ms : Action Number
read_stale_timeout_ms = do
  readers ← gets (λ w. w.external.readers)
  raw ← attempt (kv_read stale_order_timeout_key)
  pure (kv_num readers (or_null raw) (num_of default_stale_order_timeout_ms))

-- SQL's `submitted_at < cutoff` does not hold of a null.
abbrev was_submitted_before : Readers → ℕ → Number → Option ℕ → Bool
was_submitted_before readers time timeout none = false
was_submitted_before readers time timeout (some submitted) = readers.is_older submitted time timeout

abbrev is_stale : Readers → ℕ → Number → RealOrder → Bool
is_stale readers time timeout r =
    is_open r.status && was_submitted_before readers time timeout r.submitted_at

unfoldable pub cancel_stale_order : RealOrder → Action Done
cancel_stale_order row =
    on_option row.broker_order_id
      (λ order. quietly (do
        cancel_order row.broker_plugin_id order
        quietly (
            create_alert (record {
              kind = custom;
              severity = high;
              symbol = some row.symbol;
              resolved = false;
            }))))
      skip

-- `_cancelStaleOpenOrders`
unfoldable pub cancel_stale_open_orders : Action Done
cancel_stale_open_orders = do
  readers ← gets (λ w. w.external.readers)
  timeout ← read_stale_timeout_ms
  time ← now
  rows ← read_db (λ db. select (is_stale readers time timeout) db.orders)
  for_each rows cancel_stale_order

-- `reconcileAllOpenOrders`
unfoldable pub reconcile_all_open_orders : Action Done
reconcile_all_open_orders = do
  quietly recover_inflight
  quietly cancel_stale_open_orders
  rows ← read_db (λ db. select (λ r. is_open r.status) db.orders)
  for_each rows (λ r. quietly (reconcile_order r.id))
