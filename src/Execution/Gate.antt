-- ===== src/Execution/Gate.antt =====
-- The entry gate of governed-paper-execution.service.ts: mark to market, the loss breaker's periods,
-- the drawdown and the ceiling on open positions.
use open_neotrader.Base.{
  ℕ, Bool, true, false, not, ◌&&◌, ◌||◌, Option, none, some, List, [], ◌∷◌, ◌==◌, if◌then◌else◌,
  length,
}
use open_neotrader.Number.{Number, num_lt, num_le, num_max, num_of, is_finite, zero_num}
use open_neotrader.Execution.Account.{
  Arithmetic, GovernedPosition, Account, RiskPolicy, EntryGateResult, Market, base_hwm,
}
use open_neotrader.Store.Rows.{
  Refusal, unpriced_positions, daily_loss, weekly_loss, drawdown, too_many_positions,
}

-- what a mark to market returns
pub record Marked : Type 0 where
  pub equity : Number
  pub hwm : Number
  pub is_ok : Bool

-- a finite positive quote
abbrev pub is_price : Number → Bool
is_price x = is_finite x && not (num_le x zero_num)

abbrev pub is_quoted : Option Number → Bool
is_quoted none = false
is_quoted (some q) = is_price q

abbrev pub all_quoted : Market → List GovernedPosition → Bool
all_quoted m [] = true
all_quoted m (p ∷ ps) = is_quoted (m.mark_quote p.symbol) && all_quoted m ps

-- a key that is stored and is the same
abbrev pub is_key : Option ℕ → ℕ → Bool
is_key none k = false
is_key (some j) k = j == k

module _ (a : Arithmetic) where
  -- `computeDrawdownPct`
  unfoldable pub compute_drawdown_pct : Account → Number
  compute_drawdown_pct state =
      let hwm = base_hwm state in
      if num_lt zero_num hwm
      then num_max zero_num (a.mul (a.div (a.sub hwm state.equity) hwm) (num_of 100))
      else zero_num

  abbrev add_value : Option Number → GovernedPosition → Number → Number
  add_value none p total = total
  add_value (some q) p total = a.add total (a.mul q p.quantity)

  abbrev value_marked : Market → List GovernedPosition → Number → Number
  value_marked m [] total = total
  value_marked m (p ∷ ps) total = value_marked m ps (add_value (m.mark_quote p.symbol) p total)

  abbrev marked : Number → Number → Marked
  marked equity hwm = record { equity = equity; hwm = num_max hwm equity; is_ok = true }

  unfoldable pub mark_positions : Market → Account → List GovernedPosition → Marked
  mark_positions m state [] = marked state.equity (base_hwm state)
  mark_positions m state (p ∷ ps) =
      if all_quoted m (p ∷ ps)
      then marked (a.add state.cash (value_marked m (m.arrival (p ∷ ps)) zero_num)) (base_hwm state)
      else record { equity = state.equity; hwm = base_hwm state; is_ok = false }

  -- `markToMarket`
  unfoldable pub mark_to_market : Market → Account → Marked
  mark_to_market m state = mark_positions m state state.positions

  -- `checkPeriodLossLimit`: whether the period's loss stays below its limit
  unfoldable pub check_period_loss_limit : Option Number → Number → Number → Bool
  check_period_loss_limit none current max_loss_pct = true
  check_period_loss_limit (some start) current max_loss_pct =
      num_le start zero_num || not (num_le max_loss_pct (a.div (a.sub start current) start))

-- `syncPeriodBaselines`: the state, and whether it changed
unfoldable pub sync_period_baselines : Market → Account → Number → Account × Bool
sync_period_baselines m state equity =
    let same_day = is_key state.day_key m.today in
    let same_week = is_key state.week_key m.this_week in
    if same_day && same_week then (state, false) else (
      record state {
        day_key = some m.today;
        day_start_equity = if same_day then state.day_start_equity else some equity;
        week_key = some m.this_week;
        week_start_equity = if same_week then state.week_start_equity else some equity;
      },
      true,
    )

module _ (a : Arithmetic) where
  -- the loss breaker's refusal, if it is enabled
  unfoldable pub loss_refusal : RiskPolicy → Account → Number → Option Refusal
  loss_refusal policy state equity =
      if policy.loss_circuit_breaker_enabled
      then (if check_period_loss_limit a state.day_start_equity equity policy.max_daily_loss_pct
          then (if check_period_loss_limit a state.week_start_equity equity
                policy.max_weekly_loss_pct
              then none
              else some weekly_loss)
          else some daily_loss)
      else none

  unfoldable pub limit_refusal : RiskPolicy → Account → Option Refusal
  limit_refusal policy fresh =
      if num_le policy.max_drawdown_halt_pct (compute_drawdown_pct a fresh)
      then some drawdown
      else if num_le policy.max_open_positions (num_of (length fresh.positions))
      then some too_many_positions
      else none

  abbrev pub refreshed : Account → Marked → Account
  refreshed state mtm = record state { equity = mtm.equity; hwm = some mtm.hwm }

  abbrev pub after_losses : Option Refusal → RiskPolicy → Account → Marked → Bool → EntryGateResult
  after_losses (some r) policy synced mtm changed = record {
    refusal = some r;
    state = synced;
    baseline_changed = changed;
  }
  after_losses none policy synced mtm changed = record {
    refusal = limit_refusal policy (refreshed synced mtm);
    state = refreshed synced mtm;
    baseline_changed = changed;
  }

  -- `evaluateEntryGate`
  unfoldable pub evaluate_entry_gate : Market → Account → RiskPolicy → EntryGateResult
  evaluate_entry_gate m state policy =
      let mtm = mark_to_market a m state in
      let synced = sync_period_baselines m state mtm.equity in
      if mtm.is_ok
      then after_losses (loss_refusal policy synced.0 mtm.equity) policy synced.0 mtm synced.1
      else record { refusal = some unpriced_positions; state = state; baseline_changed = false }
