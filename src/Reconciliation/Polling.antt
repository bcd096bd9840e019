-- ===== src/Reconciliation/Polling.antt =====
-- The fast poll of real-broker-reconciliation.service.ts: it ends, and how much it asks for.
use open_neotrader.Base.{
  ℕ, ◌+◌, ◌*◌, ◌≤◌, ◌≡◌, refl, Bool, true, false, Option, none, List, [], ◌∷◌, length, arith,
}
use open_neotrader.Exec.{ok, quietly}
use open_neotrader.Common.BrokerStatus.{
  Canonical, accepted, partially_filled, filled, canceled, rejected, expired,
}
use open_neotrader.Store.Rows.{RealOrder, OrderStatus, TradeIntent}
use open_neotrader.Store.World.{World}
use open_neotrader.Store.Calls.Costs.{
  Costs, Costs-le, Costs-attempt, Costs-if, Costs-transaction, Costs-skip, Costs-quietly,
  Costs-bind, Costs-on_option, Costs-on_result, Costs-now, Costs-get_order_by_client_id,
  Costs-get_order_status, Costs-read_db, Costs-update_order, Costs-update_order_if,
  Costs-update_intent,
}
use open_neotrader.Reconciliation.Apply.{
  is_final, touch_last_reconciled_at, settle_order, apply_canonical, apply_broker_order, look_up,
  ask_broker, reconcile_order, poll_each, is_final_row, fast_poll_order, fast_poll_delays_ms,
}

Costs-touch : (id : ℕ) (b : Option ℕ) → Costs 2 (touch_last_reconciled_at id b)
unfolding touch_last_reconciled_at
Costs-touch id b = Costs-quietly _ (
    Costs-bind _ _ Costs-now
      (λ time. Costs-bind {n = 0} _ _ (Costs-update_order id _) (λ _. Costs-skip)))

Costs-settle_order :
    (row : RealOrder) (f : RealOrder → RealOrder) (g : TradeIntent → TradeIntent)
    → Costs 2 (settle_order row f g)
unfolding settle_order
Costs-settle_order row f g = Costs-transaction _ (
    Costs-bind _ _ (Costs-update_order_if row.id row.status f)
      (λ changed. Costs-if changed _ _ (Costs-update_intent row.trade_intent_id g) Costs-skip))

Costs-apply_canonical :
    (c : Canonical) (evidence : Bool) (row : RealOrder) (o : OrderStatus) (time : ℕ)
    → Costs 2 (apply_canonical c evidence row o time)
unfolding apply_canonical
Costs-apply_canonical filled false row o time = Costs-touch row.id none
Costs-apply_canonical filled true row o time = Costs-settle_order row _ _
Costs-apply_canonical partially_filled _ row o time =
    Costs-bind {n = 1} _ _ (Costs-update_order_if row.id row.status _) (λ _. Costs-skip)
Costs-apply_canonical accepted _ row o time = Costs-touch row.id _
Costs-apply_canonical rejected _ row o time = Costs-settle_order row _ _
Costs-apply_canonical canceled _ row o time = Costs-settle_order row _ _
Costs-apply_canonical expired _ row o time = Costs-settle_order row _ _

Costs-apply_broker_order : (row : RealOrder) (o : OrderStatus) → Costs 3 (apply_broker_order row o)
unfolding apply_broker_order
Costs-apply_broker_order row o =
    Costs-bind _ _ Costs-now (λ time. Costs-apply_canonical _ _ row o time)

Costs-look_up : (row : RealOrder) → Costs 1 (look_up row)
unfolding look_up
Costs-look_up row =
    Costs-on_option row.broker_order_id _ _ (Costs-get_order_status row.broker_plugin_id)
      (Costs-get_order_by_client_id row.broker_plugin_id row.client_order_id)

Costs-ask_broker : (row : RealOrder) → Costs 4 (ask_broker row)
unfolding ask_broker
Costs-ask_broker row = Costs-bind _ _ (Costs-attempt _ (Costs-look_up row)) (λ answer.
    Costs-on_result answer _ _
      (λ o.
        Costs-on_option o _ _ (Costs-apply_broker_order row)
          (Costs-le _ (omega arith) (Costs-touch row.id none)))
      (λ _. Costs-le _ (omega arith) (Costs-touch row.id none)))

Costs-reconcile_order : (id : ℕ) → Costs 5 (reconcile_order id)
unfolding reconcile_order
Costs-reconcile_order id = Costs-bind _ _ (Costs-read_db _) (λ row.
    Costs-on_option row _ _ (λ r. Costs-if (is_final r.status) _ _ Costs-skip (Costs-ask_broker r))
      Costs-skip)

Costs-poll_each : (delays : List ℕ) (id : ℕ) → Costs (length delays * 6) (poll_each delays id)
unfolding poll_each
Costs-poll_each [] id = Costs-skip
Costs-poll_each (d ∷ delays) id = Costs-le _ (omega arith) (
    Costs-bind {m = 5} {n = 1 + length delays * 6} _ _ (Costs-attempt _ (Costs-reconcile_order id))
      (λ polled.
        Costs-on_result polled _ _
          (λ a.
            Costs-bind _ _ (Costs-read_db _)
              (λ row. Costs-if (is_final_row row) _ _ Costs-skip (Costs-poll_each delays id)))
          (λ e. Costs-le _ (omega arith) (Costs-poll_each delays id))))

-- The fast poll ends: whatever the database and the broker answer, it returns without throwing, after
-- 24 calls to the database, the clock and the broker at most.
pub fast_poll_order-ends :
    (id : ℕ) (w : World)
    → ((fast_poll_order id w).0 ≡ ok tt) × ((fast_poll_order id w).1.calls_made ≤ 24 + w.calls_made)
unfolding fast_poll_order quietly
fast_poll_order-ends id w = (refl, (Costs-quietly _ (Costs-poll_each fast_poll_delays_ms id)).at w)
