-- ===== src/Tests.antt =====
-- Concrete worlds, and each theorem applied to one of them.
pub mod Intents
pub mod Orders
pub mod Schedule
pub mod Settling
pub mod Holdings
pub mod Loop
pub mod Entries
pub mod Vetoes
pub mod Pretests
use open_neotrader.Base.{
  ℕ, String, Bool, true, false, ◌+◌, ◌≡◌, refl, Option, none, some, List, [], ◌∷◌,
}
use open_neotrader.Number.{Number, finite, pos, negsuc, zero_num}
use open_neotrader.Common.Kv.{not_string}
use open_neotrader.Common.Halt.{halted_key}
use open_neotrader.Store.Rows.{
  Status, buy, market, RealOrder, OrderStatus, TradeIntent, IntentStatus, TradeAction, real,
  Position, Portfolio, long_side,
}
use open_neotrader.Execution.Account.{Arithmetic}
use open_neotrader.Store.World.{External, World, placed, not_found}
use open_neotrader.RealOrder.Submit.{SubmitArgs}
use open_neotrader.RealOrder.Guards.{DatabaseWorks}

abbrev pub ten : Number
ten = finite (pos 10)

-- a long of ten of symbol 5
abbrev pub held_position : Position
held_position = record {
  symbol = 5;
  qty = ten;
  avg_entry = ten;
  market_value = ten;
  unrealized_pnl = zero_num;
  side = long_side;
}

abbrev pub portfolio : Portfolio
portfolio = record {
  equity = ten;
  cash = ten;
  buying_power = ten;
  positions = held_position ∷ [];
  total_pnl = zero_num;
}

-- arithmetic that answers its first argument: no theorem says what the rounding operations do
abbrev pub first_number : Arithmetic
first_number = record {
  add = λ a b. a;
  sub = λ a b. a;
  mul = λ a b. a;
  div = λ a b. a;
  floor = λ a. a;
  round = λ a. a;
}

-- Everything works, and the broker takes each order and has no record of any by its client id.
abbrev pub external : External
external = record {
  readers = record {
    json_parse = λ _. not_string;
    to_number = λ _. zero_num;
    is_older = λ _ _ _. true;
    identifier = λ _. some 1;
    nonempty = λ _. some 1;
    show_number = λ _. "0";
    first_200 = λ s. s;
  };
  db_works = λ _. true;
  now = λ n. n;
  new_id = λ n. n + 100;
  client_order_id = λ n _. n + 200;
  placement = λ _ _. placed (record { order_id = some 7; json = "{}" });
  order_by_client_id = λ _ _ _. not_found;
  order_status = λ _ _ _. none;
  cancel_works = λ _ _ _. true;
  portfolio = λ _ _. some portfolio;
  fault_text = λ _. "failed";
  adoption_json = λ _ _. "{}";
  quote = λ _ _. some ten;
  arrival = λ _ ps. ps;
  day_of = λ _. 1;
  week_of = λ _. 1;
  arithmetic = first_number;
}

abbrev pub external_works : (n : ℕ) → external.db_works n ≡ true
external_works n = refl

-- an order of intent 1 for symbol 5 at broker 1
abbrev pub order_at : Status → RealOrder
order_at status = record {
  id = 1;
  trade_intent_id = 1;
  broker_plugin_id = 1;
  client_order_id = 11;
  broker_order_id = some 7;
  symbol = 5;
  side = buy;
  order_type = market;
  requested_qty = ten;
  limit_price = none;
  status = status;
  filled_qty = zero_num;
  filled_avg_price = none;
  submitted_at = some 1;
  filled_at = none;
  last_reconciled_at = none;
  broker_raw_json = none;
  error = none;
  created_at = 1;
}

abbrev pub intent : TradeIntent
intent = record {
  id = 1;
  cycle_id = none;
  symbol = 5;
  action = TradeAction.long;
  confidence = ten;
  mode = real;
  status = IntentStatus.real_pending;
  fill_price = none;
  quantity = none;
  realized_pnl = none;
  reject_reason = none;
  decided_at = none;
  decided_by = none;
  outcome = none;
}

abbrev pub world_of : List RealOrder → World
world_of orders = record {
  external = external;
  calls_made = 0;
  db = record {
    orders = orders;
    intents = intent ∷ [];
    kv = [];
    breaker = none;
    alerts = [];
    positions = [];
    snapshots = [];
    paper = none;
    strategies = [];
  };
  told = [];
  failure_times = [];
  absent_counts = [];
  tick_running = false;
  last_sync = none;
}

-- the same world with the kill-switch set
abbrev pub halted_world : World
halted_world =
    let w = world_of [] in record w { db = record w.db { kv = (halted_key, "true") ∷ [] } }

abbrev pub args : SubmitArgs
args = record {
  trade_intent_id = 1;
  broker_plugin_id = 1;
  symbol = 5;
  side = buy;
  requested_qty = ten;
  order_type = none;
  limit_price = none;
}

-- what the broker says of an order of which ten are filled at ten
abbrev pub filled_ten : String → OrderStatus
filled_ten status = record {
  broker_order_id = 7;
  status = status;
  filled_qty = ten;
  filled_avg_price = some ten;
  reject_reason = none;
}
