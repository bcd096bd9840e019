-- ===== src/RealOrder/Submit.antt =====
-- `submit` of apps/api/src/real-order/real-order.service.ts: its guards, the row that it commits, the
-- race for it, and the outcome of the broker's answer. The service's own state is `failure_times` of
-- `World`.
use open_neotrader.Base.{
  ℕ, suc, ◌-◌, String, Bool, true, false, ◌&&◌, Option, none, some, List, [], ◌∷◌, ◌++◌, ltb, leb,
  ◌==◌, if◌then◌else◌, or_default, length, find, select,
}
use open_neotrader.Number.{Number, zero_num}
use open_neotrader.Exec.{
  Fault, unique_violation, ok, pure, raise, gets, attempt, skip, quietly, ◌>>=◌, ◌>>◌, on_option,
  on_result,
}
use open_neotrader.Common.Halt.{halt_real_execution}
use open_neotrader.Store.Rows.{
  Status, Side, buy, sell, other_side, OrderType, market, limit, thrown, RealOrder, PlaceResponse,
  PlaceRequest,
}
use open_neotrader.Store.Index.{is_active}
use open_neotrader.Store.World.{Action, Done}
use open_neotrader.Store.Calls.{
  now, new_id, read_db, create_order, update_order, place_order, change_failure_times,
}

-- `SubmitArgs`
pub record SubmitArgs : Type 0 where
  pub trade_intent_id : ℕ
  pub broker_plugin_id : ℕ
  pub symbol : ℕ
  pub side : Side
  pub requested_qty : Number
  pub order_type : Option OrderType
  pub limit_price : Option Number

abbrev pub submit_failure_threshold : ℕ
submit_failure_threshold = 3

abbrev pub submit_failure_window_ms : ℕ
submit_failure_window_ms = 300000

abbrev pub side_eq : Side → Side → Bool
side_eq buy buy = true
side_eq sell sell = true
side_eq (other_side a) (other_side b) = a == b
side_eq _ _ = false

-- the `where` clauses of the two guards
unfoldable pub is_for_intent : ℕ → RealOrder → Bool
is_for_intent intent r = r.trade_intent_id == intent && is_active r

unfoldable pub is_for_symbol : ℕ → ℕ → Side → RealOrder → Bool
is_for_symbol symbol broker side r =
    r.symbol == symbol && (r.broker_plugin_id == broker && (side_eq r.side side && is_active r))

abbrev later : (RealOrder → Bool) → RealOrder → Option RealOrder → Option RealOrder
later p r none = if p r then some r else none
later p r (some best) = if p r && ltb best.created_at r.created_at then some r else some best

-- `findFirst({ orderBy: { created_at: 'desc' } })`
unfoldable pub find_latest : (RealOrder → Bool) → List RealOrder → Option RealOrder
find_latest p [] = none
find_latest p (r ∷ rows) = later p r (find_latest p rows)

-- `findActiveOrderForIntent`
unfoldable pub find_active_order_for_intent : ℕ → Action (Option RealOrder)
find_active_order_for_intent intent = read_db (λ db. find (is_for_intent intent) db.orders)

-- `findActiveOrderForSymbol`
unfoldable pub find_active_order_for_symbol : ℕ → ℕ → Side → Action (Option RealOrder)
find_active_order_for_symbol symbol broker side =
    read_db (λ db. find_latest (is_for_symbol symbol broker side) db.orders)

-- `generateClientOrderId`: a text built from the intent's id and a random UUID
unfoldable pub generate_client_order_id : ℕ → Action ℕ
generate_client_order_id intent w = (
  ok (w.external.client_order_id w.calls_made intent),
  record w { calls_made = suc w.calls_made },
)

-- `_recordSubmitFailureAndMaybeHalt`
unfoldable pub record_submit_failure_and_maybe_halt : Action Done
record_submit_failure_and_maybe_halt = do
  time ← now
  change_failure_times
      (λ times. select (λ t. leb (time - t) submit_failure_window_ms) times ++ time ∷ [])
  times ← gets (λ w. w.failure_times)
  if ltb (length times) submit_failure_threshold
      then skip
      else quietly (halt_real_execution "repeated real order submit failures")

-- the row that `submit` creates
unfoldable pub pending_row : SubmitArgs → ℕ → ℕ → ℕ → RealOrder
pending_row args id client created_at = record {
  id = id;
  trade_intent_id = args.trade_intent_id;
  broker_plugin_id = args.broker_plugin_id;
  client_order_id = client;
  broker_order_id = none;
  symbol = args.symbol;
  side = args.side;
  order_type = or_default args.order_type market;
  requested_qty = args.requested_qty;
  limit_price = args.limit_price;
  status = Status.pending_submit;
  filled_qty = zero_num;
  filled_avg_price = none;
  submitted_at = none;
  filled_at = none;
  last_reconciled_at = none;
  broker_raw_json = none;
  error = none;
  created_at = created_at;
}

abbrev wire_side : Side → Side
wire_side sell = sell
wire_side _ = buy

abbrev wire_type : Option OrderType → OrderType
wire_type (some limit) = limit
wire_type _ = market

-- what `submit` hands to `placeOrder`
unfoldable pub request_of : SubmitArgs → ℕ → PlaceRequest
request_of args client = record {
  symbol = args.symbol;
  qty = args.requested_qty;
  side = wire_side args.side;
  order_type = wire_type args.order_type;
  client_order_id = client;
  limit_price = args.limit_price;
}

-- the row's columns after the broker has taken the order, and after it has not
abbrev pub mark_submitted : PlaceResponse → ℕ → RealOrder → RealOrder
mark_submitted response time r = record r {
  status = Status.submitted;
  broker_order_id = response.order_id;
  submitted_at = some time;
  broker_raw_json = some response.json;
}

abbrev pub mark_submit_failed : String → RealOrder → RealOrder
mark_submit_failed message r = record r {
  status = Status.submit_failed;
  error = some (thrown message);
}

-- A write whose failure is logged, the row being returned as it was read.
unfoldable pub update_or_keep : RealOrder → (RealOrder → RealOrder) → Action RealOrder
update_or_keep row f = do
  updated ← attempt (update_order row.id f)
  on_result updated pure (λ _. pure row)

-- after a successful `placeOrder`
unfoldable pub record_placed : RealOrder → PlaceResponse → Action RealOrder
record_placed row response = do
  change_failure_times (λ _. [])
  time ← now
  update_or_keep row (mark_submitted response time)

-- the `catch` of `placeOrder`
unfoldable pub record_not_placed : RealOrder → Fault → Action RealOrder
record_not_placed row e = do
  record_submit_failure_and_maybe_halt
  message ← gets (λ w. w.external.fault_text e)
  update_or_keep row (mark_submit_failed message)

-- `submit` once its row is committed
unfoldable pub place_and_record : SubmitArgs → RealOrder → Action RealOrder
place_and_record args row = do
  placed ← attempt (place_order args.broker_plugin_id (request_of args row.client_order_id))
  on_result placed (record_placed row) (record_not_placed row)

-- `submit` where `create` threw: the winner of a race, or the fault again
unfoldable pub resolve_race : SubmitArgs → Fault → Action RealOrder
resolve_race args unique_violation = do
  winner ← find_active_order_for_intent args.trade_intent_id
  on_option winner pure (raise unique_violation)
resolve_race args e = raise e

-- `submit` after its guards
unfoldable pub create_and_place : SubmitArgs → Action RealOrder
create_and_place args = do
  client ← generate_client_order_id args.trade_intent_id
  id ← new_id
  time ← now
  created ← attempt (create_order (pending_row args id client time))
  on_result created (place_and_record args) (resolve_race args)

-- `submit`
unfoldable pub submit : SubmitArgs → Action RealOrder
submit args = do
  for_intent ← find_active_order_for_intent args.trade_intent_id
  on_option for_intent pure (do
    for_symbol ← find_active_order_for_symbol args.symbol args.broker_plugin_id args.side
    on_option for_symbol pure (create_and_place args))
