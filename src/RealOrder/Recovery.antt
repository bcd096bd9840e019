-- ===== src/RealOrder/Recovery.antt =====
-- What `recoverRow` and `_handleConfirmedAbsent` of real-order.service.ts write.
use open_neotrader.Base.{
  ℕ, ◌+◌, ◌≡◌, ◌⊎◌, refl, true, false, some, List, ◌==◌, arith, String, if◌then◌else◌, ltb, find,
  update_where, inl, inr,
}
use open_neotrader.Exec.{◌>>=◌}
use open_neotrader.Common.BrokerStatus.{
  Canonical, accepted, partially_filled, filled, canceled, rejected, expired,
  normalize_broker_status, is_terminal_status,
}
use open_neotrader.Store.Rows.{Status, RealOrder}
use open_neotrader.Store.Index.{index_holds}
use open_neotrader.Store.World.{World}
use open_neotrader.Store.Calls.{db_call, change_orders, change_absent_counts, update_order}
use open_neotrader.RealOrder.Recover.{
  absent_count, set_count, forget_count, forget_absent, mark_absent, handle_confirmed_absent,
  confirmed_absent_escalation_threshold, status_of, pollable_status, is_recoverable,
}
use open_neotrader.RealOrder.Guards.{DatabaseWorks}

-- a status that the reconciliation polls, and that recovery no longer selects
abbrev pub IsPolled : Status → Type 0
IsPolled status =
    (is_recoverable status ≡ false)
    × ((status ≡ Status.accepted) ⊎ (status ≡ Status.partially_filled))

pollable :
    (c : Canonical) → IsPolled (if is_terminal_status c then Status.accepted else status_of c)
unfolding is_terminal_status
pollable accepted = (refl, inl refl)
pollable partially_filled = (refl, inr refl)
pollable filled = (refl, inl refl)
pollable canceled = (refl, inl refl)
pollable rejected = (refl, inl refl)
pollable expired = (refl, inl refl)

-- Recovery never writes an end: whatever text the broker gives as the status, the row's new status is
-- `accepted` or `partially_filled`, which the reconciliation polls and recovery does not select again.
pub pollable_status-IsPolled : (raw : String) → IsPolled (pollable_status raw)
unfolding pollable_status
pollable_status-IsPolled raw = pollable (normalize_broker_status raw)

own_count : (id n : ℕ) (counts : List (ℕ × ℕ)) → absent_count id (set_count id n counts) ≡ n
own_count id n counts = ground arith

-- The first and the second answer that the broker has no record of a row only count: where fewer than
-- two such answers in a row came before, the database stays as it was and the count is one higher.
pub early_absence :
    (row : RealOrder) (w : World)
    → ltb (absent_count row.id w.absent_counts + 1) confirmed_absent_escalation_threshold ≡ true
    → ((handle_confirmed_absent row w).1.db ≡ w.db)
      × (absent_count row.id (handle_confirmed_absent row w).1.absent_counts
          ≡ absent_count row.id w.absent_counts + 1)
unfolding handle_confirmed_absent change_absent_counts ◌>>=◌
early_absence row w early = rw early (refl, own_count row.id _ w.absent_counts)

-- the table once a row of it is given up
abbrev pub absent_rows : RealOrder → World → List RealOrder
absent_rows row w =
    update_where (λ r. r.id == row.id) (mark_absent (absent_count row.id w.absent_counts + 1))
      w.db.orders

-- The third answer in a row ends the polling: where two such answers came before, the database works,
-- the row is in the table and the change fits the unique indexes, the row becomes `confirmed_absent`,
-- which is not a status that recovery selects, and its count starts anew.
pub third_absence :
    (row : RealOrder) (w : World) {stored : RealOrder}
    → DatabaseWorks w
    → ltb (absent_count row.id w.absent_counts + 1) confirmed_absent_escalation_threshold ≡ false
    → find (λ r. r.id == row.id) w.db.orders ≡ some stored
    → index_holds (absent_rows row w) ≡ true
    → ((handle_confirmed_absent row w).1.db.orders ≡ absent_rows row w)
      × (is_recoverable Status.confirmed_absent ≡ false)
      × ((handle_confirmed_absent row w).1.absent_counts ≡ forget_count row.id w.absent_counts)
unfolding handle_confirmed_absent change_absent_counts ◌>>=◌ forget_absent update_order db_call
    change_orders
third_absence row w works late found fits =
    rw (late, works w.calls_made, found, fits) (refl, refl, refl)
