-- ===== src/Execution/Account.antt =====
-- governed-account-state.ts: the account, the policies and the results. Arithmetic that rounds, and
-- what the market and the calendar answer, are parameters.
use open_neotrader.Base.{ℕ, Bool, Option, List, or_default, ◌==◌}
use open_neotrader.Number.{Number}
use open_neotrader.Store.Rows.{Refusal}

-- The operations on doubles that round: `+ - * /`, `Math.floor` and `Math.round`.
pub record Arithmetic : Type 0 where
  pub add : Number → Number → Number
  pub sub : Number → Number → Number
  pub mul : Number → Number → Number
  pub div : Number → Number → Number
  pub floor : Number → Number
  pub round : Number → Number

-- `GovernedPosition`: a positive quantity is a long, a negative one a short.
pub record GovernedPosition : Type 0 where
  pub symbol : ℕ
  pub quantity : Number
  pub avg_price : Number

-- `GovernedAccountState`; the keys name a day and a week
pub record Account : Type 0 where
  pub equity : Number
  pub cash : Number
  pub positions : List GovernedPosition
  pub hwm : Option Number
  pub day_key : Option ℕ
  pub day_start_equity : Option Number
  pub week_key : Option ℕ
  pub week_start_equity : Option Number

-- `RiskPolicy`
pub record RiskPolicy : Type 0 where
  pub max_position_pct : Number
  pub max_open_positions : Number
  pub max_drawdown_halt_pct : Number
  pub max_short_notional_pct : Number
  pub loss_circuit_breaker_enabled : Bool
  pub max_daily_loss_pct : Number
  pub max_weekly_loss_pct : Number

-- `FillPolicy`
pub record FillPolicy : Type 0 where
  pub sizing_pct : Number
  pub max_position_pct : Number
  pub max_short_notional_pct : Number
  pub slippage_pct : Option Number
  pub commission_pct : Option Number

-- `EntryGateResult`, whose `pass` is that there is no refusal
pub record EntryGateResult : Type 0 where
  pub refusal : Option Refusal
  pub state : Account
  pub baseline_changed : Bool

-- `FillResult`
pub record FillResult : Type 0 where
  pub quantity : Number
  pub realized_pnl : Option Number
  pub new_state : Account
  pub no_position : Bool

-- `EvaluateAndExecuteResult`
pub record EntryResult : Type 0 where
  pub refusal : Option Refusal
  pub quantity : Number
  pub realized_pnl : Option Number
  pub new_state : Account
  pub baseline_changed : Bool

-- What one evaluation gets from outside: a quote of each symbol, which is missing where the gateway
-- throws or returns none, first for the mark to market and then for the fill; the order in which the
-- concurrent quotes of the mark to market arrive; and the keys of the current day and week.
pub record Market : Type 0 where
  pub mark_quote : ℕ → Option Number
  pub fill_quote : ℕ → Option Number
  pub arrival : List GovernedPosition → List GovernedPosition
  pub today : ℕ
  pub this_week : ℕ

-- `state.hwm ?? state.equity`
abbrev pub base_hwm : Account → Number
base_hwm state = or_default state.hwm state.equity

abbrev pub is_of : ℕ → GovernedPosition → Bool
is_of symbol p = p.symbol == symbol
