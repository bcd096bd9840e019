-- ===== src/Tests/Settling.antt =====
-- The ledger's writes.
use open_neotrader.Base.{
  ◌≡◌, ◌≤◌, ◌⊎◌, refl, true, none, [], ◌∷◌, some_of, update_where, is_yes_holds,
}
use open_neotrader.Common.BrokerStatus.{normalize_broker_status}
use open_neotrader.Store.Rows.{Status, Status-discrete, OrderStatus}
use open_neotrader.Store.Index.{index_holds, compatible_all}
use open_neotrader.Store.World.{World}
use open_neotrader.Reconciliation.Apply.{
  is_fill_evidence, mark_filled, mark_executed, settle_order, apply_broker_order, fast_poll_order,
}
use open_neotrader.Reconciliation.Ledger.{
  is_as_read, Settled, LedgerIs, canceled_row, filled_intent, settle_order-all_or_nothing,
  canceled_with_fill, unproven_fill-LedgerIs,
}
use open_neotrader.Reconciliation.Polling.{fast_poll_order-ends}
use open_neotrader.Exec.{ok}
use open_neotrader.Tests.{world_of, order_at, filled_ten, external_works}

-- the row was read as submitted and has been canceled since
abbrev moved_on : World
moved_on = world_of (order_at Status.canceled ∷ [])

settle_order-all_or_nothing_example :
    let row = order_at Status.submitted in
    let settled =
      settle_order row
        (mark_filled (filled_ten "filled") 9)
        (mark_executed (filled_ten "filled"))
        moved_on in
    (settled.1.db ≡ moved_on.db)
    ⊎ ((some_of (is_as_read row) moved_on.db.orders ≡ true)
        × Settled row
            (mark_filled (filled_ten "filled") 9)
            (mark_executed (filled_ten "filled"))
            moved_on.db
            settled.1.db)
settle_order-all_or_nothing_example =
    settle_order-all_or_nothing (order_at Status.submitted) (mark_filled (filled_ten "filled") 9)
      (mark_executed (filled_ten "filled")) moved_on

abbrev submitted_world : World
submitted_world = world_of (order_at Status.submitted ∷ [])

index_kept :
    index_holds (
      update_where
        (is_as_read (order_at Status.submitted))
        (canceled_row (filled_ten "canceled") 0)
        (order_at Status.submitted ∷ []))
    ≡ true
unfolding index_holds compatible_all
index_kept = refl

canceled_with_fill_example :
    Settled
      (order_at Status.submitted)
      (canceled_row (filled_ten "canceled") 0)
      (filled_intent (filled_ten "canceled"))
      submitted_world.db
      (apply_broker_order (order_at Status.submitted) (filled_ten "canceled") submitted_world).1.db
unfolding normalize_broker_status is_fill_evidence index_holds compatible_all
canceled_with_fill_example =
    canceled_with_fill (order_at Status.submitted) (filled_ten "canceled") submitted_world
      external_works refl refl
      (rw (is_yes_holds (Status-discrete Status.submitted Status.submitted) refl) refl) index_kept
      refl

abbrev unpriced : OrderStatus
unpriced = record (filled_ten "filled") { filled_avg_price = none }

unproven_fill-LedgerIs_example :
    LedgerIs submitted_world
      (apply_broker_order (order_at Status.submitted) unpriced submitted_world).1
unfolding normalize_broker_status is_fill_evidence
unproven_fill-LedgerIs_example =
    unproven_fill-LedgerIs (order_at Status.submitted) unpriced submitted_world refl refl

fast_poll_order-ends_example :
    ((fast_poll_order 1 submitted_world).0 ≡ ok tt)
    × ((fast_poll_order 1 submitted_world).1.calls_made ≤ 24)
fast_poll_order-ends_example = fast_poll_order-ends 1 submitted_world
