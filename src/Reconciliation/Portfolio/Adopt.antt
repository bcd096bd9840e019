-- ===== src/Reconciliation/Portfolio/Adopt.antt =====
-- `adoptBrokerPosition` of real-broker-reconciliation.service.ts.
use open_neotrader.Base.{ℕ, String, Option, none, some, List, ◌==◌, find}
use open_neotrader.Number.{num_abs, num_of}
use open_neotrader.Exec.{position_not_reported, pure, raise, gets, ◌>>=◌, ◌>>◌, on_option}
use open_neotrader.Store.Rows.{
  Status, Side, buy, sell, market, RealOrder, IntentStatus, TradeAction, real, TradeIntent,
  Position, PositionSide, long_side, short_side, poll,
}
use open_neotrader.Store.World.{Action}
use open_neotrader.Store.Calls.{
  now, new_id, create_order, transaction, get_portfolio, create_intent,
}
use open_neotrader.Reconciliation.Portfolio.Sync.{sync_portfolio}

abbrev pub side_of : PositionSide → Side
side_of short_side = sell
side_of long_side = buy

abbrev pub action_of : PositionSide → TradeAction
action_of short_side = TradeAction.short
action_of long_side = TradeAction.long

abbrev pub adopted_intent : Position → ℕ → ℕ → TradeIntent
adopted_intent p symbol id = record {
  id = id;
  cycle_id = none;
  symbol = symbol;
  action = action_of p.side;
  confidence = num_of 1;
  mode = real;
  status = IntentStatus.executed;
  fill_price = some p.avg_entry;
  quantity = some (num_abs p.qty);
  realized_pnl = none;
  reject_reason = none;
  decided_at = none;
  decided_by = none;
  outcome = none;
}

abbrev pub adopted_order : Position → ℕ → ℕ → ℕ → ℕ → ℕ → ℕ → String → RealOrder
adopted_order p symbol broker id intent client time json = record {
  id = id;
  trade_intent_id = intent;
  broker_plugin_id = broker;
  client_order_id = client;
  broker_order_id = none;
  symbol = symbol;
  side = side_of p.side;
  order_type = market;
  requested_qty = num_abs p.qty;
  limit_price = none;
  status = Status.filled;
  filled_qty = num_abs p.qty;
  filled_avg_price = some p.avg_entry;
  submitted_at = some time;
  filled_at = some time;
  last_reconciled_at = some time;
  broker_raw_json = some json;
  error = none;
  created_at = time;
}

unfoldable pub adopted_rows : Position → ℕ → ℕ → ℕ → ℕ → String → Action RealOrder
adopted_rows p symbol broker client time json = do
  intent ← new_id
  create_intent (adopted_intent p symbol intent)
  id ← new_id
  create_order (adopted_order p symbol broker id intent client time json)

unfoldable pub write_adoption : ℕ → ℕ → Option String → Position → Action RealOrder
write_adoption symbol broker remark p = do
  json ← gets (λ w. w.external.adoption_json)
  time ← now
  client ← new_id
  transaction (adopted_rows p symbol broker client time (json time remark))

-- `adoptBrokerPosition`
unfoldable pub adopt_broker_position : ℕ → ℕ → Option String → Action (RealOrder × List ℕ)
adopt_broker_position symbol broker remark = do
  portfolio ← get_portfolio broker
  on_option (find (λ p. p.symbol == symbol) portfolio.positions)
      (λ p. do
        adopted ← write_adoption symbol broker remark p
        drifted ← sync_portfolio broker poll
        pure (adopted, drifted))
      (raise position_not_reported)
