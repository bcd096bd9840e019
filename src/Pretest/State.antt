-- ===== src/Pretest/State.antt =====
-- The portfolios of pretest.service.ts, the calls that the service makes of the plugin manager, and what
-- the outside answers by the number of the call. Symbols, plugins and portfolios are numbers; the columns
-- that no code here reads are left out.
use open_neotrader.Base.{ℕ, suc, String, Bool, Option, none, some, List, ◌∷◌, map, if◌then◌else◌}
use open_neotrader.Number.{Number, zero_num, is_finite}
use open_neotrader.Exec.{Exec, database, gateway, ok, err, gets, ◌>>◌}
use open_neotrader.Execution.Account.{Arithmetic, Market}
use open_neotrader.Common.Kv.{Kv, Readers, kv_get}

pub data PretestAction : Type 0 where
  buy sell close short cover : PretestAction

-- `PretestTrade`
pub record PretestTrade : Type 0 where
  pub ts : ℕ
  pub symbol : ℕ
  pub action : PretestAction
  pub price : Number
  pub quantity : Number
  pub pnl : Option Number
  pub entry_price : Option Number

-- `PretestPosition`: a negative quantity is a short
pub record PretestPosition : Type 0 where
  pub symbol : ℕ
  pub quantity : Number
  pub avg_price : Number
  pub current_price : Option Number
  pub unrealized_pnl : Option Number

-- `PretestState`
pub record PretestState : Type 0 where
  pub equity : Number
  pub cash : Number
  pub positions : List PretestPosition
  pub trades : List PretestTrade
  pub max_equity : Number
  pub max_drawdown_pct : Number
  pub realized_pnl : Number
  pub win_trades : ℕ
  pub loss_trades : ℕ
  pub benchmark_return_pct : Option Number
  pub benchmark_start_price : Option Number
  pub hwm : Option Number
  pub day_key : Option ℕ
  pub day_start_equity : Option Number
  pub week_key : Option ℕ
  pub week_start_equity : Option Number

-- A number that `JSON.stringify` wrote, as it is read back: one that is not finite has become null,
-- which the arithmetic and the comparisons of the code read as zero, and `??` as missing.
abbrev stored_number : Number → Number
stored_number n = if is_finite n then n else zero_num

abbrev stored_or_zero : Option Number → Option Number
stored_or_zero none = none
stored_or_zero (some n) = some (stored_number n)

abbrev stored_or_missing : Option Number → Option Number
stored_or_missing none = none
stored_or_missing (some n) = if is_finite n then some n else none

abbrev pub stored_position : PretestPosition → PretestPosition
stored_position p = record p {
  quantity = stored_number p.quantity;
  avg_price = stored_number p.avg_price;
  current_price = stored_or_missing p.current_price;
  unrealized_pnl = stored_or_missing p.unrealized_pnl;
}

abbrev pub stored_trade : PretestTrade → PretestTrade
stored_trade t = record t {
  price = stored_number t.price;
  quantity = stored_number t.quantity;
  pnl = stored_or_zero t.pnl;
  entry_price = stored_or_missing t.entry_price;
}

-- the state that is read back after it was written
abbrev pub stored_state : PretestState → PretestState
stored_state s = record s {
  equity = stored_number s.equity;
  cash = stored_number s.cash;
  positions = map stored_position s.positions;
  trades = map stored_trade s.trades;
  max_equity = stored_number s.max_equity;
  max_drawdown_pct = stored_number s.max_drawdown_pct;
  realized_pnl = stored_number s.realized_pnl;
  benchmark_return_pct = stored_or_zero s.benchmark_return_pct;
  benchmark_start_price = stored_or_zero s.benchmark_start_price;
  hwm = stored_or_missing s.hwm;
  day_start_equity = stored_or_zero s.day_start_equity;
  week_start_equity = stored_or_zero s.week_start_equity;
}

-- `PretestPortfolio`; of the configurations only which plugins have one is kept
pub record PretestPortfolio : Type 0 where
  pub id : ℕ
  pub initial_capital : Number
  pub plugin_ids : List ℕ
  pub configured_ids : List ℕ
  pub state : PretestState
  pub run_count : ℕ
  pub last_run_at : Option ℕ
  pub is_active : Bool

pub record PretestExternal : Type 0 where
  pub store_works : ℕ → Bool
  pub now : ℕ → ℕ
  -- `getQuote(null, symbol)`: the last price, none where it throws
  pub quote : ℕ → ℕ → Option Number
  -- the order in which quotes that are asked for together arrive
  pub arrival : ℕ → List PretestPosition → List PretestPosition
  -- what the market and the calendar answer the entry gate
  pub market : ℕ → Market
  pub activate_works : ℕ → ℕ → Bool
  pub set_config_works : ℕ → ℕ → Bool
  pub readers : Readers
  pub arithmetic : Arithmetic
  pub sqrt : Number → Number

-- a call of the plugin manager
pub data PluginCall : Type 0 where
  activate set_config : ℕ → PluginCall

pub record Pretests : Type 0 where
  pub external : PretestExternal
  pub calls_made : ℕ
  pub portfolios : List PretestPortfolio
  pub kv : Kv
  -- newest first
  pub plugin_calls : List PluginCall

abbrev pub Trial : Type 0 → Type 0
Trial = Exec Pretests

-- a call of the database or of the audit log, which may fail
unfoldable pub store_call : Trial (Unit {0})
store_call w = (
  if w.external.store_works w.calls_made then ok tt else err database,
  record w { calls_made = suc w.calls_made },
)

-- a question to the outside
unfoldable pub ask : {A : Type 0} → (PretestExternal → ℕ → A) → Trial A
ask f w = (ok (f w.external w.calls_made), record w { calls_made = suc w.calls_made })

-- `KvService.get`
unfoldable pub read_kv : String → Trial (Option String)
read_kv k = store_call >> gets (λ w. kv_get k w.kv)

-- `plugins.activate` and `plugins.setConfig`
unfoldable pub activate_plugin : ℕ → Trial (Unit {0})
activate_plugin id w = (
  if w.external.activate_works w.calls_made id then ok tt else err (gateway "activation failed"),
  record w { calls_made = suc w.calls_made; plugin_calls = activate id ∷ w.plugin_calls },
)

unfoldable pub set_plugin_config : ℕ → Trial (Unit {0})
set_plugin_config id w = (
  if w.external.set_config_works w.calls_made id then ok tt else err (gateway "refused"),
  record w { calls_made = suc w.calls_made; plugin_calls = set_config id ∷ w.plugin_calls },
)
