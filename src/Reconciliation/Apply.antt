-- ===== src/Reconciliation/Apply.antt =====
-- `reconcileOrder`, `applyBrokerOrder` and `fastPollOrder` of real-broker-reconciliation.service.ts.
use open_neotrader.Base.{
  ℕ, String, Bool, true, false, ◌&&◌, Option, none, some, List, [], ◌∷◌, ◌==◌, if◌then◌else◌,
  is_some, or_default, find,
}
use Prim.Native.String.{◌++◌}
use open_neotrader.Number.{Number, num_lt, is_finite, zero_num}
use open_neotrader.Exec.{attempt, skip, quietly, ◌>>=◌, ◌>>◌, on_option, on_result}
use open_neotrader.Common.BrokerStatus.{
  Canonical, accepted, partially_filled, filled, canceled, rejected, expired,
  normalize_broker_status,
}
use open_neotrader.Store.Rows.{by_text, Status, RealOrder, OrderStatus, TradeIntent, IntentStatus}
use open_neotrader.Store.World.{Action, Done}
use open_neotrader.Store.Calls.{
  now, read_db, update_order, update_order_if, update_intent, transaction, get_order_status,
  get_order_by_client_id,
}

-- `TERMINAL_STATUSES` and `OPEN_STATUSES` of this service
abbrev pub is_final : Status → Bool
is_final Status.filled = true
is_final Status.canceled = true
is_final Status.rejected = true
is_final Status.expired = true
is_final _ = false

abbrev pub is_open : Status → Bool
is_open Status.submitted = true
is_open Status.accepted = true
is_open Status.partially_filled = true
is_open _ = false

abbrev is_positive : Number → Bool
is_positive x = is_finite x && num_lt zero_num x

abbrev is_positive_price : Option Number → Bool
is_positive_price none = false
is_positive_price (some p) = is_positive p

-- `isValidFillEvidence`
unfoldable pub is_fill_evidence : OrderStatus → Bool
is_fill_evidence o = is_positive o.filled_qty && is_positive_price o.filled_avg_price

abbrev pub mark_final : Status → OrderStatus → ℕ → RealOrder → RealOrder
mark_final status o time r = record r {
  status = status;
  broker_order_id = some o.broker_order_id;
  filled_qty = o.filled_qty;
  filled_avg_price = o.filled_avg_price;
  last_reconciled_at = some time;
}

abbrev pub mark_filled : OrderStatus → ℕ → RealOrder → RealOrder
mark_filled o time r = record (mark_final Status.filled o time r) { filled_at = some time }

abbrev pub mark_partially_filled : OrderStatus → ℕ → RealOrder → RealOrder
mark_partially_filled o time r = record r {
  status = Status.partially_filled;
  filled_qty = o.filled_qty;
  filled_avg_price = o.filled_avg_price;
  last_reconciled_at = some time;
}

abbrev pub mark_executed : OrderStatus → TradeIntent → TradeIntent
mark_executed o t = record t {
  status = IntentStatus.executed;
  fill_price = o.filled_avg_price;
  quantity = some o.filled_qty;
}

-- `extractRejectReason`
unfoldable pub extract_reject_reason : OrderStatus → String
extract_reject_reason o = or_default o.reject_reason ("Broker order " ++ o.status)

abbrev pub mark_failed : OrderStatus → TradeIntent → TradeIntent
mark_failed o t = record t {
  status = IntentStatus.failed;
  reject_reason = some (by_text (extract_reject_reason o));
}

abbrev backfilled : Option ℕ → Option ℕ → Option ℕ
backfilled none old = old
backfilled (some id) old = some id

abbrev pub mark_touched : Option ℕ → ℕ → RealOrder → RealOrder
mark_touched backfill time r = record r {
  last_reconciled_at = some time;
  broker_order_id = backfilled backfill r.broker_order_id;
}

-- `touchLastReconciledAt`
unfoldable pub touch_last_reconciled_at : ℕ → Option ℕ → Action Done
touch_last_reconciled_at id backfill =
    quietly (do time ← now; update_order id (mark_touched backfill time); skip)

-- The two tables are written together, and only if the row's status is still the one observed.
unfoldable pub settle_order :
    RealOrder → (RealOrder → RealOrder) → (TradeIntent → TradeIntent) → Action Done
settle_order row f g = transaction (do
  changed ← update_order_if row.id row.status f
  if changed then update_intent row.trade_intent_id g else skip)

-- `applyBrokerOrder` after the broker's status is read
unfoldable pub apply_canonical : Canonical → Bool → RealOrder → OrderStatus → ℕ → Action Done
apply_canonical filled false row o time = touch_last_reconciled_at row.id none
apply_canonical filled true row o time = settle_order row (mark_filled o time) (mark_executed o)
apply_canonical partially_filled _ row o time =
    update_order_if row.id row.status (mark_partially_filled o time) >> skip
apply_canonical accepted _ row o time =
    touch_last_reconciled_at row.id
      (if is_some row.broker_order_id then none else some o.broker_order_id)
apply_canonical rejected evidence row o time =
    settle_order row (mark_final Status.rejected o time)
      (if evidence then mark_executed o else mark_failed o)
apply_canonical canceled evidence row o time =
    settle_order row (mark_final Status.canceled o time)
      (if evidence then mark_executed o else mark_failed o)
apply_canonical expired evidence row o time =
    settle_order row (mark_final Status.expired o time)
      (if evidence then mark_executed o else mark_failed o)

-- `applyBrokerOrder`
unfoldable pub apply_broker_order : RealOrder → OrderStatus → Action Done
apply_broker_order row o = do
  time ← now
  apply_canonical (normalize_broker_status o.status) (is_fill_evidence o) row o time

-- the broker's answer about a row
unfoldable pub look_up : RealOrder → Action (Option OrderStatus)
look_up row =
    on_option row.broker_order_id (get_order_status row.broker_plugin_id)
      (get_order_by_client_id row.broker_plugin_id row.client_order_id)

unfoldable pub ask_broker : RealOrder → Action Done
ask_broker row = do
  answer ← attempt (look_up row)
  on_result answer
      (λ o. on_option o (apply_broker_order row) (touch_last_reconciled_at row.id none))
      (λ _. touch_last_reconciled_at row.id none)

-- `reconcileOrder`
unfoldable pub reconcile_order : ℕ → Action Done
reconcile_order id = do
  row ← read_db (λ db. find (λ r. r.id == id) db.orders)
  on_option row (λ r. if is_final r.status then skip else ask_broker r) skip

abbrev pub fast_poll_delays_ms : List ℕ
fast_poll_delays_ms = 2000 ∷ 4000 ∷ 8000 ∷ 16000 ∷ []

abbrev pub is_final_row : Option RealOrder → Bool
is_final_row none = false
is_final_row (some r) = is_final r.status

-- the loop of `fastPollOrder`; the delays themselves change nothing
unfoldable pub poll_each : List ℕ → ℕ → Action Done
poll_each [] id = skip
poll_each (delay ∷ delays) id = do
  polled ← attempt (reconcile_order id)
  on_result polled
      (λ _. do
        row ← read_db (λ db. find (λ r. r.id == id) db.orders)
        if is_final_row row then skip else poll_each delays id)
      (λ _. poll_each delays id)

-- `fastPollOrder`
unfoldable pub fast_poll_order : ℕ → Action Done
fast_poll_order id = quietly (poll_each fast_poll_delays_ms id)
