-- ===== src/Reconciliation/Keeps.antt =====
-- What the reconciliation keeps: every operation of the service keeps each predicate that stands the
-- changes of `Stable` and of `Haltable`.
use open_neotrader.Base.{ℕ, refl, Bool, true, false, Option, none, List, [], ◌∷◌}
use open_neotrader.Exec.Keeps.{
  Keeps, keeps_rules, Keeps-if, Keeps-bind, Keeps-skip, Keeps-quietly, Keeps-on_result,
}
use open_neotrader.Common.BrokerStatus.{
  Canonical, accepted, partially_filled, filled, canceled, rejected, expired,
}
use open_neotrader.Store.Rows.{Status, RealOrder, OrderStatus, TradeIntent}
use open_neotrader.Store.Index.{SameClient}
use open_neotrader.Store.World.{World, Action}
use open_neotrader.Store.Calls.{transaction}
use open_neotrader.Store.Calls.Footprint.{
  Stable, OutsideIs-Stable, Keeps-now, Keeps-read_db, Keeps-kv_read, Keeps-update_order,
  Keeps-update_order_if, Keeps-update_intent, Keeps-transaction, Keeps-get_order_by_client_id,
  Keeps-get_order_status, Keeps-cancel_order, Keeps-create_alert,
}
use open_neotrader.RealOrder.Keeps.{Keeps-recover_inflight}
use open_neotrader.Reconciliation.Apply.{
  mark_final, mark_filled, mark_partially_filled, mark_touched, touch_last_reconciled_at,
  settle_order, apply_canonical, apply_broker_order, look_up, ask_broker, reconcile_order,
  poll_each, is_final_row, fast_poll_order,
}
use open_neotrader.Reconciliation.Sweep.{
  read_stale_timeout_ms, cancel_stale_order, cancel_stale_open_orders, reconcile_all_open_orders,
}

SameClient-mark_final : (st : Status) (o : OrderStatus) (n : ℕ) → SameClient (mark_final st o n)
SameClient-mark_final st o n = record { same = λ x. refl }

SameClient-mark_filled : (o : OrderStatus) (n : ℕ) → SameClient (mark_filled o n)
SameClient-mark_filled o n = record { same = λ x. refl }

SameClient-mark_partially_filled :
    (o : OrderStatus) (n : ℕ) → SameClient (mark_partially_filled o n)
SameClient-mark_partially_filled o n = record { same = λ x. refl }

SameClient-mark_touched : (b : Option ℕ) (n : ℕ) → SameClient (mark_touched b n)
SameClient-mark_touched b n = record { same = λ x. refl }

ruleset same_client = (
  SameClient-mark_final, SameClient-mark_filled, SameClient-mark_partially_filled,
  SameClient-mark_touched,
)

-- A transaction keeps what its body keeps for every predicate that stands the listed changes.
pub Keeps-atomically :
    {P : World → Type 0} (s : Stable P) {A : Type 0} (m : Action A)
    → ((Q : World → Type 0) → Stable Q → Keeps Q m)
    → Keeps P (transaction m)
Keeps-atomically s m k = Keeps-transaction s m (k _ s) (λ e ids. k _ (OutsideIs-Stable e ids))

module _ {P : World → Type 0} (s : Stable P) where
  ruleset apply_rules = (
    keeps_rules, same_client, Keeps-now, Keeps-read_db, Keeps-update_order, Keeps-update_order_if,
    Keeps-update_intent,
  )

  Keeps-touch : (id : ℕ) (b : Option ℕ) → Keeps P (touch_last_reconciled_at id b)
  unfolding touch_last_reconciled_at
  Keeps-touch id b = search apply_rules depth 14

  Keeps-settle_order :
      (row : RealOrder) (f : RealOrder → RealOrder) (g : TradeIntent → TradeIntent)
      → SameClient f
      → Keeps P (settle_order row f g)
  unfolding settle_order
  Keeps-settle_order row f g k = Keeps-atomically s _ λ Q t.
      Keeps-bind _ _ (Keeps-update_order_if t row.id row.status f k)
        λ changed. Keeps-if changed _ _ (Keeps-update_intent t row.trade_intent_id g) Keeps-skip

  Keeps-apply_canonical :
      (c : Canonical) (evidence : Bool) (row : RealOrder) (o : OrderStatus) (time : ℕ)
      → Keeps P (apply_canonical c evidence row o time)
  unfolding apply_canonical
  Keeps-apply_canonical filled false row o time = Keeps-touch row.id none
  Keeps-apply_canonical filled true row o time = search (apply_rules, Keeps-settle_order) depth 14
  Keeps-apply_canonical partially_filled _ row o time = search apply_rules depth 14
  Keeps-apply_canonical accepted _ row o time = Keeps-touch row.id _
  Keeps-apply_canonical rejected _ row o time = search (apply_rules, Keeps-settle_order) depth 14
  Keeps-apply_canonical canceled _ row o time = search (apply_rules, Keeps-settle_order) depth 14
  Keeps-apply_canonical expired _ row o time = search (apply_rules, Keeps-settle_order) depth 14

  Keeps-apply_broker_order :
      (row : RealOrder) (o : OrderStatus) → Keeps P (apply_broker_order row o)
  unfolding apply_broker_order
  Keeps-apply_broker_order row o = search (apply_rules, Keeps-apply_canonical) depth 14

  Keeps-look_up : (row : RealOrder) → Keeps P (look_up row)
  unfolding look_up
  Keeps-look_up row =
      search (keeps_rules, Keeps-get_order_status, Keeps-get_order_by_client_id) depth 14

  Keeps-ask_broker : (row : RealOrder) → Keeps P (ask_broker row)
  unfolding ask_broker
  Keeps-ask_broker row =
      search (keeps_rules, Keeps-look_up, Keeps-apply_broker_order, Keeps-touch) depth 14

  pub Keeps-reconcile_order : (id : ℕ) → Keeps P (reconcile_order id)
  unfolding reconcile_order
  Keeps-reconcile_order id = search (apply_rules, Keeps-ask_broker) depth 14

  Keeps-poll_each : (delays : List ℕ) (id : ℕ) → Keeps P (poll_each delays id)
  unfolding poll_each
  Keeps-poll_each [] id = Keeps-skip
  Keeps-poll_each (d ∷ delays) id =
      Keeps-bind _ _ (search (keeps_rules, Keeps-reconcile_order)) λ polled.
        Keeps-on_result polled _ _
          (λ a.
            Keeps-bind _ _ (Keeps-read_db s _)
              λ row. Keeps-if (is_final_row row) _ _ Keeps-skip (Keeps-poll_each delays id))
          (λ e. Keeps-poll_each delays id)

  pub Keeps-fast_poll_order : (id : ℕ) → Keeps P (fast_poll_order id)
  unfolding fast_poll_order
  Keeps-fast_poll_order id = Keeps-quietly _ (Keeps-poll_each _ id)

  ruleset sweep_rules =
      (keeps_rules, Keeps-now, Keeps-read_db, Keeps-kv_read, Keeps-cancel_order, Keeps-create_alert)

  Keeps-read_stale_timeout_ms : Keeps P read_stale_timeout_ms
  unfolding read_stale_timeout_ms
  Keeps-read_stale_timeout_ms = search sweep_rules depth 14

  Keeps-cancel_stale_order : (row : RealOrder) → Keeps P (cancel_stale_order row)
  unfolding cancel_stale_order
  Keeps-cancel_stale_order row = search sweep_rules depth 14

  pub Keeps-cancel_stale_open_orders : Keeps P cancel_stale_open_orders
  unfolding cancel_stale_open_orders
  Keeps-cancel_stale_open_orders =
      search (sweep_rules, Keeps-read_stale_timeout_ms, Keeps-cancel_stale_order) depth 14

  pub Keeps-reconcile_all_open_orders : Keeps P reconcile_all_open_orders
  unfolding reconcile_all_open_orders
  Keeps-reconcile_all_open_orders =
      search
        (sweep_rules, Keeps-recover_inflight, Keeps-cancel_stale_open_orders, Keeps-reconcile_order)
        depth 14
