-- ===== src/Pretest/Cycle.antt =====
-- The trading half of `runCycle` of pretest.service.ts, from the calls that the agents and the passive
-- strategies want to the portfolio that is stored, and `runAllActive`. What the plugins, the bars and
-- the language model answer in a cycle is a value, none where one of them throws.
use open_neotrader.Base.{
  ℕ, suc, Bool, ◌&&◌, Option, none, some, List, [], ◌∷◌, ◌++◌, ◌==◌, select, update_where, some_of,
  if◌then◌else◌,
}
use open_neotrader.Number.{Number, num_of, num_le}
use open_neotrader.Exec.{
  Result, gateway, record_not_found, pure, raise, gets, modify, attempt, quietly, ◌>>=◌, ◌>>◌,
  on_option,
}
use open_neotrader.Execution.Account.{Arithmetic}
use open_neotrader.Pretest.State.{
  PretestTrade, PretestState, PretestPortfolio, Trial, stored_state, store_call, ask,
}
use open_neotrader.Pretest.Book.{apply_trades}
use open_neotrader.Pretest.Fill.{PretestPolicy, ToolCall, simulate_fills}
use open_neotrader.Pretest.Rebalance.{build_vol_target_rebalance_trades}
use open_neotrader.Pretest.Marks.{update_equity_metrics}
use open_neotrader.Pretest.Floor.{apply_kernel_risk_floor}
use open_neotrader.Pretest.Promote.{find_one}

-- what a cycle gets from outside; the exposure is there where a plugin sets a target for it
pub record CycleTurn : Type 0 where
  pub tool_calls : List ToolCall
  pub exposure_scalar : Option Number
  pub policy : PretestPolicy
  pub reference_closes : ℕ → Number
  pub benchmark_symbol : ℕ

module _ (a : Arithmetic) where
  -- `exposureScalar === 1`
  abbrev is_one : Number → Bool
  is_one x = num_le x (num_of 1) && num_le (num_of 1) x

  abbrev pub effective_policy : Option Number → PretestPolicy → PretestPolicy
  effective_policy none policy = policy
  effective_policy (some x) policy =
      if is_one x then policy else record policy { sizing_pct = a.mul policy.sizing_pct x }

  -- the fills and the rebalancing of a state that the floor returned
  unfoldable pub cycle_trades :
      CycleTurn → PretestPolicy → List ToolCall → PretestState → Trial (List PretestTrade)
  cycle_trades turn policy allowed state = do
    trades ← simulate_fills a allowed state policy turn.reference_closes
    rebalance ←
        on_option turn.exposure_scalar
          (λ x. build_vol_target_rebalance_trades a state x turn.reference_closes) (pure [])
    pure (trades ++ rebalance)

  -- the state after a cycle
  unfoldable pub cycle_state : CycleTurn → PretestState → Trial PretestState
  cycle_state turn state = do
    let policy : PretestPolicy = effective_policy turn.exposure_scalar turn.policy
    gated ← apply_kernel_risk_floor turn.tool_calls state
    trades ← cycle_trades turn policy gated.0 gated.1
    update_equity_metrics a turn.benchmark_symbol
        (apply_trades a gated.1 trades policy.commission_pct) policy turn.reference_closes

-- the row of a portfolio after a cycle
abbrev pub advanced : PretestState → ℕ → PretestPortfolio → PretestPortfolio
advanced state now p = record p {
  state = stored_state state;
  run_count = suc p.run_count;
  last_run_at = some now;
}

-- the update of the row, which throws where there is none; the snapshot that follows may fail
unfoldable pub store_state : ℕ → PretestState → Trial (Unit {0})
store_state id state = do
  now ← ask (λ e n. e.now n)
  store_call
  portfolios ← gets (λ w. w.portfolios)
  if some_of (λ p. p.id == id) portfolios
      then modify (λ w. record w {
        portfolios = update_where (λ p. p.id == id) (advanced state now) w.portfolios;
      })
      else raise record_not_found
  quietly store_call

unfoldable pub finish_cycle : PretestPortfolio → CycleTurn → Trial (Unit {0})
finish_cycle pf turn = do
  a ← gets (λ w. w.external.arithmetic)
  state ← cycle_state a turn pf.state
  store_state pf.id state

-- `runCycle`, whose result is left out
unfoldable pub run_cycle : Option CycleTurn → ℕ → Trial (Unit {0})
run_cycle turn id = do
  pf ← find_one id
  if pf.is_active
      then on_option turn (finish_cycle pf) (raise (gateway "cycle"))
      else raise (gateway "inactive")

-- the loop of `runAllActive`, with the outcome of each cycle
unfoldable pub run_each :
    (ℕ → Option CycleTurn) → List PretestPortfolio → Trial (List (ℕ × Result (Unit {0})))
run_each turns [] = pure []
run_each turns (p ∷ ps) = do
  outcome ← attempt (run_cycle (turns p.id) p.id)
  rest ← run_each turns ps
  pure ((p.id, outcome) ∷ rest)

-- `runAllActive`
unfoldable pub run_all_active : (ℕ → Option CycleTurn) → Trial (List (ℕ × Result (Unit {0})))
run_all_active turns = do
  store_call
  active ← gets (λ w. select (λ p. p.is_active) w.portfolios)
  run_each turns active
