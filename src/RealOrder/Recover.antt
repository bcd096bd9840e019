-- ===== src/RealOrder/Recover.antt =====
-- The recovery of rows whose fate is unknown in apps/api/src/real-order/real-order.service.ts. The
-- service's own state is `absent_counts` of `World`.
use open_neotrader.Base.{
  ℕ, ◌+◌, String, Bool, true, false, some, List, [], ◌∷◌, ltb, ◌==◌, if◌then◌else◌, select,
}
use open_neotrader.Exec.{gets, attempt, skip, quietly, ◌>>=◌, ◌>>◌, on_option, on_result, for_each}
use open_neotrader.Common.BrokerStatus.{
  Canonical, accepted, partially_filled, filled, canceled, rejected, expired,
  normalize_broker_status, is_terminal_status,
}
use open_neotrader.Store.Rows.{Status, broker_has_no_record, RealOrder, OrderStatus}
use open_neotrader.Store.World.{Action, Done}
use open_neotrader.Store.Calls.{
  now, read_db, update_order, get_order_by_client_id, change_absent_counts,
}

abbrev pub confirmed_absent_escalation_threshold : ℕ
confirmed_absent_escalation_threshold = 3

-- `RECOVERABLE_STATUSES.includes(status)`
abbrev pub is_recoverable : Status → Bool
is_recoverable Status.pending_submit = true
is_recoverable Status.submit_failed = true
is_recoverable _ = false

abbrev pub absent_count : ℕ → List (ℕ × ℕ) → ℕ
absent_count id [] = 0
absent_count id ((j, n) ∷ counts) = if j == id then n else absent_count id counts

abbrev pub forget_count : ℕ → List (ℕ × ℕ) → List (ℕ × ℕ)
forget_count id [] = []
forget_count id ((j, n) ∷ counts) =
    let rest = forget_count id counts in if j == id then rest else (j, n) ∷ rest

abbrev pub set_count : ℕ → ℕ → List (ℕ × ℕ) → List (ℕ × ℕ)
set_count id n counts = (id, n) ∷ forget_count id counts

unfoldable pub forget_absent : ℕ → Action Done
forget_absent id = change_absent_counts (forget_count id)

abbrev pub mark_absent : ℕ → RealOrder → RealOrder
mark_absent count r = record r {
  status = Status.confirmed_absent;
  error = some (broker_has_no_record count);
}

-- `_handleConfirmedAbsent`
unfoldable pub handle_confirmed_absent : RealOrder → Action Done
handle_confirmed_absent row = do
  seen ← gets (λ w. absent_count row.id w.absent_counts)
  if ltb (seen + 1) confirmed_absent_escalation_threshold
      then change_absent_counts (set_count row.id (seen + 1))
      else do forget_absent row.id; quietly (update_order row.id (mark_absent (seen + 1)) >> skip)

abbrev pub status_of : Canonical → Status
status_of accepted = Status.accepted
status_of partially_filled = Status.partially_filled
status_of filled = Status.filled
status_of canceled = Status.canceled
status_of rejected = Status.rejected
status_of expired = Status.expired

-- the broker's status, a terminal one being left to the reconciliation
unfoldable pub pollable_status : String → Status
pollable_status raw =
    let canonical = normalize_broker_status raw in
    if is_terminal_status canonical then Status.accepted else status_of canonical

abbrev pub mark_recovered : OrderStatus → ℕ → RealOrder → RealOrder
mark_recovered order time r = record r {
  broker_order_id = some order.broker_order_id;
  status = pollable_status order.status;
  last_reconciled_at = some time;
}

-- the branch of `recoverRow` where the broker has the order
unfoldable pub adopt_broker_truth : RealOrder → OrderStatus → Action Done
adopt_broker_truth row order = do
  forget_absent row.id
  time ← now
  update_order row.id (mark_recovered order time)
  skip

-- `recoverRow`
unfoldable pub recover_row : RealOrder → Action Done
recover_row row = do
  answer ← attempt (get_order_by_client_id row.broker_plugin_id row.client_order_id)
  on_result answer (λ order. on_option order (adopt_broker_truth row) (handle_confirmed_absent row))
      (λ _. forget_absent row.id)

-- `recoverInflight`
unfoldable pub recover_inflight : Action Done
recover_inflight = do
  rows ← read_db (λ db. select (λ r. is_recoverable r.status) db.orders)
  for_each rows recover_row

-- `onModuleInit`
unfoldable pub on_module_init : Action Done
on_module_init = quietly recover_inflight
