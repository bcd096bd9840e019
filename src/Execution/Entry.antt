-- ===== src/Execution/Entry.antt =====
-- `evaluateAndExecuteEntry` and `applyRebalanceTrade` of governed-paper-execution.service.ts.
use open_neotrader.Base.{
  ℕ, Bool, true, false, ◌||◌, Option, none, some, List, if◌then◌else◌, find, or_default,
}
use open_neotrader.Number.{Number, num_lt, num_le, num_min, num_of, zero_num}
use open_neotrader.Store.Rows.{TradeAction, long, short, exit, hold, Side, buy}
use open_neotrader.Execution.Account.{
  Arithmetic, GovernedPosition, Account, RiskPolicy, FillPolicy, EntryGateResult, FillResult,
  EntryResult, Market, is_of,
}
use open_neotrader.Store.Rows.{Refusal, quote_unavailable, invalid_fill_price}
use open_neotrader.Execution.Gate.{is_price, evaluate_entry_gate}
use open_neotrader.Execution.Fill.{
  update_first, remove_first, revalued, unfilled, add_long, is_short, execute_fill,
}

abbrev pub refused : Refusal → EntryGateResult → EntryResult
refused r gate = record {
  refusal = some r;
  quantity = zero_num;
  realized_pnl = none;
  new_state = gate.state;
  baseline_changed = gate.baseline_changed;
}

abbrev pub filled : FillResult → Bool → EntryResult
filled fill changed = record {
  refusal = none;
  quantity = fill.quantity;
  realized_pnl = fill.realized_pnl;
  new_state = fill.new_state;
  baseline_changed = changed;
}

module _ (a : Arithmetic) where
  -- buys fill above the quote, sales below
  abbrev pub slipped : Bool → Number → Number → Number
  slipped true last slippage = a.mul last (a.add (num_of 1) slippage)
  slipped false last slippage = a.mul last (a.sub (num_of 1) slippage)

  abbrev pub is_buy_side : TradeAction → ℕ → Account → Bool
  is_buy_side long symbol state = true
  is_buy_side exit symbol state = is_short a (find (is_of symbol) state.positions)
  is_buy_side short symbol state = false
  is_buy_side hold symbol state = false

  unfoldable pub fill_at : TradeAction → ℕ → FillPolicy → EntryGateResult → Number → EntryResult
  fill_at action symbol policy gate last =
      let price =
        slipped (is_buy_side action symbol gate.state) last
          (or_default policy.slippage_pct zero_num) in
      let fill =
        execute_fill a action symbol price gate.state policy.sizing_pct policy.max_position_pct
          policy.max_short_notional_pct (or_default policy.commission_pct zero_num) in
      if is_price last then filled fill gate.baseline_changed else refused invalid_fill_price gate

  -- the quote and the fill, once the gate let the trade through
  unfoldable pub fill_with :
      Option Number → TradeAction → ℕ → FillPolicy → EntryGateResult → EntryResult
  fill_with none action symbol policy gate = refused quote_unavailable gate
  fill_with (some last) action symbol policy gate = fill_at action symbol policy gate last

  unfoldable pub fill_if_passed :
      Option Refusal → Market → TradeAction → ℕ → FillPolicy → EntryGateResult → EntryResult
  fill_if_passed (some r) m action symbol policy gate = refused r gate
  fill_if_passed none m action symbol policy gate =
      fill_with (m.fill_quote symbol) action symbol policy gate

  abbrev pub ungated : Account → EntryGateResult
  ungated state = record { refusal = none; state = state; baseline_changed = false }

  -- only an entry is gated
  abbrev pub gate_of : Market → TradeAction → Account → RiskPolicy → EntryGateResult
  gate_of m long state policy = evaluate_entry_gate a m state policy
  gate_of m short state policy = evaluate_entry_gate a m state policy
  gate_of m exit state policy = ungated state
  gate_of m hold state policy = ungated state

  abbrev passed_through : Market → TradeAction → ℕ → FillPolicy → EntryGateResult → EntryResult
  passed_through m action symbol policy gate =
      fill_if_passed gate.refusal m action symbol policy gate

  -- `evaluateAndExecuteEntry`
  unfoldable pub evaluate_and_execute_entry :
      Market → TradeAction → ℕ → Account → RiskPolicy → FillPolicy → EntryResult
  evaluate_and_execute_entry m hold symbol state risk policy = filled (unfilled a state false) false
  evaluate_and_execute_entry m long symbol state risk policy =
      passed_through m long symbol policy (gate_of m long state risk)
  evaluate_and_execute_entry m short symbol state risk policy =
      passed_through m short symbol policy (gate_of m short state risk)
  evaluate_and_execute_entry m exit symbol state risk policy =
      passed_through m exit symbol policy (gate_of m exit state risk)

  -- a sale takes the shares off the position, and the position out where none are left
  abbrev reduced : ℕ → Number → GovernedPosition → List GovernedPosition → List GovernedPosition
  reduced symbol left p ps =
      if num_le left zero_num
      then remove_first symbol ps
      else update_first symbol (λ q. record q { quantity = left }) ps

  unfoldable pub rebalance_buy : ℕ → Number → Number → Account → Number → Account × Option Number
  rebalance_buy symbol quantity price state commission_pct =
      let notional = a.mul price quantity in
      let cost = a.add notional (a.mul notional commission_pct) in
      let existing = find (is_of symbol) state.positions in
      let positions = add_long a existing symbol quantity (a.div cost quantity) state.positions in
      if num_lt state.cash cost
      then (state, none)
      else (revalued a state (a.sub state.cash cost) positions price symbol, none)

  unfoldable pub rebalance_sell :
      Option GovernedPosition → ℕ → Number → Number → Account → Number → Account × Option Number
  rebalance_sell none symbol quantity price state commission_pct = (state, none)
  rebalance_sell (some p) symbol quantity price state commission_pct =
      let qty = num_min quantity p.quantity in
      let proceeds = a.mul price qty in
      let commission = a.mul proceeds commission_pct in
      let cash = a.add state.cash (a.sub proceeds commission) in
      let positions = reduced symbol (a.sub p.quantity qty) p state.positions in
      if num_le p.quantity zero_num then (state, none) else (
        revalued a state cash positions price symbol,
        some (a.sub (a.mul (a.sub price p.avg_price) qty) commission),
      )

  -- the two directions of a rebalance: `buy`, or else a sale
  abbrev pub rebalance_trade :
      Side → ℕ → Number → Number → Account → Number → Account × Option Number
  rebalance_trade buy symbol quantity price state commission_pct =
      rebalance_buy symbol quantity price state commission_pct
  rebalance_trade _ symbol quantity price state commission_pct =
      rebalance_sell (find (is_of symbol) state.positions) symbol quantity price state
        commission_pct

  -- `applyRebalanceTrade`
  unfoldable pub apply_rebalance_trade :
      Side → ℕ → Number → Number → Account → Number → Account × Option Number
  apply_rebalance_trade direction symbol quantity price state commission_pct =
      if num_le quantity zero_num || num_le price zero_num
      then (state, none)
      else rebalance_trade direction symbol quantity price state commission_pct
