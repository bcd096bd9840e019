-- ===== src/Store/Rows.antt =====
-- Row types of the tables `real_orders`, `trade_intents`, `real_positions`, `real_nav_snapshots` and
-- `alert_entries`, and the records that the broker gateway returns
-- (apps/api/src/providers/provider-gateway.service.ts). Identifiers, symbols and times in
-- milliseconds are numbers: the program only compares them.
use open_neotrader.Base.{ℕ, String, Bool, Option, List}
use open_neotrader.Number.{Number}

-- `RealOrder.status`: the broker's vocabulary and the statuses of the platform's own.
pub data Status : Type 0 where
  pending_submit submitted accepted partially_filled : Status
  filled canceled rejected expired submit_failed confirmed_absent : Status

-- hlevel proves that two statuses can be compared
pub Status-discrete : Discrete Status
Status-discrete = hlevel

-- The column `side` is free text of which the code knows two values.
pub data Side : Type 0 where
  buy sell : Side
  other_side : ℕ → Side

pub data OrderType : Type 0 where
  market limit : OrderType
  other_type : ℕ → OrderType

-- What the column `error` holds: the text of what the gateway threw, or the code's own message
-- after a number of answers that the broker has no such order.
pub data OrderError : Type 0 where
  thrown : String → OrderError
  broker_has_no_record : ℕ → OrderError

pub record RealOrder : Type 0 where
  pub id : ℕ
  pub trade_intent_id : ℕ
  pub broker_plugin_id : ℕ
  pub client_order_id : ℕ
  pub broker_order_id : Option ℕ
  pub symbol : ℕ
  pub side : Side
  pub order_type : OrderType
  pub requested_qty : Number
  pub limit_price : Option Number
  pub status : Status
  pub filled_qty : Number
  pub filled_avg_price : Option Number
  pub submitted_at : Option ℕ
  pub filled_at : Option ℕ
  pub last_reconciled_at : Option ℕ
  pub broker_raw_json : Option String
  pub error : Option OrderError
  pub created_at : ℕ

pub data IntentStatus : Type 0 where
  pending executed failed real_pending rejected_intent skipped duplicate : IntentStatus

pub data TradeAction : Type 0 where
  long short exit hold : TradeAction

pub data Mode : Type 0 where
  paper real : Mode

-- Why the kernel's risk gate refuses an entry.
pub data Refusal : Type 0 where
  unpriced_positions daily_loss weekly_loss drawdown too_many_positions : Refusal
  quote_unavailable invalid_fill_price : Refusal

-- What the walk-forward gate misses.
pub data WalkForwardFailure : Type 0 where
  no_strategy strategy_lookup_failed no_strategy_row not_robust unchecked stale : WalkForwardFailure

-- What the column `result_json` says.
pub data Outcome : Type 0 where
  duplicate_of : ℕ → Outcome
  no_change no_account_state no_exit_routing kill_switch no_broker short_not_allowed : Outcome
  walk_forward : WalkForwardFailure → Outcome
  bad_quote not_finite no_exit_quantity no_broker_position no_quantity : Outcome
  over_notional : Number → Outcome
  submit_threw submit_refused : Outcome
  requested : Number → Side → ℕ → Outcome
  nothing_to_close : Outcome
  filled_on_paper : Number → Number → Outcome

-- Why an intent is rejected: by the risk gate, by a person or, after an order, by the broker.
pub data RejectReason : Type 0 where
  by_gate : Refusal → RejectReason
  by_text : String → RejectReason

pub record TradeIntent : Type 0 where
  pub id : ℕ
  pub cycle_id : Option ℕ
  pub symbol : ℕ
  pub action : TradeAction
  pub confidence : Number
  pub mode : Mode
  pub status : IntentStatus
  pub fill_price : Option Number
  pub quantity : Option Number
  pub realized_pnl : Option Number
  pub reject_reason : Option RejectReason
  pub decided_at : Option ℕ
  pub decided_by : Option String
  pub outcome : Option Outcome

-- `OrderStatusResult`; `reject_reason` is the text at that key of `raw`, if it holds one
pub record OrderStatus : Type 0 where
  pub broker_order_id : ℕ
  pub status : String
  pub filled_qty : Number
  pub filled_avg_price : Option Number
  pub reject_reason : Option String

-- The broker's answer to an order: the text at its key `id`, if it holds one, and its JSON text.
pub record PlaceResponse : Type 0 where
  pub order_id : Option ℕ
  pub json : String

-- The order that `placeOrder` sends.
pub record PlaceRequest : Type 0 where
  pub symbol : ℕ
  pub qty : Number
  pub side : Side
  pub order_type : OrderType
  pub client_order_id : ℕ
  pub limit_price : Option Number

pub data PositionSide : Type 0 where
  long_side short_side : PositionSide

-- `Position`
pub record Position : Type 0 where
  pub symbol : ℕ
  pub qty : Number
  pub avg_entry : Number
  pub market_value : Number
  pub unrealized_pnl : Number
  pub side : PositionSide

-- `Portfolio`
pub record Portfolio : Type 0 where
  pub equity : Number
  pub cash : Number
  pub buying_power : Number
  pub positions : List Position
  pub total_pnl : Number

-- a row of `real_positions`, whose key is the symbol
pub record RealPosition : Type 0 where
  pub broker_plugin_id : ℕ
  pub position : Position
  pub open position use *

pub data SyncSource : Type 0 where
  poll startup_reconcile : SyncSource

pub record NavSnapshot : Type 0 where
  pub broker_plugin_id : ℕ
  pub equity : Number
  pub cash : Number
  pub buying_power : Number
  pub positions : List Position
  pub total_pnl : Number
  pub hwm : Number
  pub source : SyncSource
  pub ts : ℕ

pub data AlertType : Type 0 where
  reconciliation_halted broker_drift custom : AlertType

pub data Severity : Type 0 where
  high critical : Severity

pub record Alert : Type 0 where
  pub kind : AlertType
  pub severity : Severity
  pub symbol : Option ℕ
  pub resolved : Bool

pub data BreakerPhase : Type 0 where
  closed open_phase half_open : BreakerPhase

-- the circuit breaker's state, which is kept in the key-value table as JSON
pub record Breaker : Type 0 where
  pub phase : BreakerPhase
  pub consecutive_failures : ℕ
  pub last_failure_at : Option ℕ
  pub last_success_at : Option ℕ
  pub reason : Option String

-- the columns of `strategies` that the walk-forward gate reads
pub record Strategy : Type 0 where
  pub id : ℕ
  pub walk_forward_verdict : Option String
  pub walk_forward_checked_at : Option ℕ
