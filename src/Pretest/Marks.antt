-- ===== src/Pretest/Marks.antt =====
-- `_updateEquityMetrics` of pretest.service.ts. The quotes are asked for together; the borrow costs are
-- charged in the order in which they arrive.
use open_neotrader.Base.{ℕ, ◌&&◌, Option, none, some, List, [], ◌∷◌, or_default, if◌then◌else◌}
use open_neotrader.Number.{Number, zero_num, num_of, num_lt, num_abs}
use open_neotrader.Exec.{pure, ◌>>=◌}
use open_neotrader.Execution.Account.{Arithmetic}
use open_neotrader.Pretest.State.{PretestPosition, PretestState, Trial, ask}
use open_neotrader.Pretest.Fill.{PretestPolicy, is_mark, last_known, mark_by}

abbrev pub larger : Number → Number → Number
larger old fresh = if num_lt old fresh then fresh else old

module _ (a : Arithmetic) where
  abbrev pub revalued : Number → PretestPosition → PretestPosition
  revalued price pos = record pos {
    current_price = some price;
    unrealized_pnl = some (a.mul (a.sub price pos.avg_price) pos.quantity);
  }

  -- the positions with the prices of their quotes
  unfoldable pub mark_all : List PretestPosition → (ℕ → Number) → Trial (List PretestPosition)
  mark_all [] reference_closes = pure []
  mark_all (pos ∷ ps) reference_closes = do
    quote ← ask (λ e n. e.quote n pos.symbol)
    rest ← mark_all ps reference_closes
    pure (revalued (mark_by a pos reference_closes quote) pos ∷ rest)

  -- the cash after the borrow costs of marked positions, in their order
  abbrev pub charge_borrow : Number → List PretestPosition → Number → Number
  charge_borrow pct [] cash = cash
  charge_borrow pct (pos ∷ ps) cash =
      let cost = a.mul (a.mul (num_abs pos.quantity) (last_known pos)) pct in
      charge_borrow pct ps
        (if num_lt pos.quantity zero_num && num_lt zero_num pct then a.sub cash cost else cash)

  abbrev pub sum_values : List PretestPosition → Number → Number
  sum_values [] total = total
  sum_values (pos ∷ ps) total = sum_values ps (a.add total (a.mul (last_known pos) pos.quantity))

  -- the benchmark after a quote of it
  abbrev pub benchmarked : ℕ → (ℕ → Number) → Option Number → PretestState → PretestState
  benchmarked symbol reference_closes none state = state
  benchmarked symbol reference_closes (some last) state =
      let start = or_default state.benchmark_start_price last in
      if is_mark a symbol reference_closes last
      then record state {
        benchmark_start_price = some start;
        benchmark_return_pct = some (a.mul (a.div (a.sub last start) start) (num_of 100));
      }
      else state

  -- the drawdown below a maximum
  abbrev pub drawdown_of : Number → Number → Number
  drawdown_of max_equity equity =
      if num_lt zero_num max_equity
      then a.mul (a.div (a.sub max_equity equity) max_equity) (num_of 100)
      else zero_num

  -- the maxima after a change of the equity
  unfoldable pub raise_marks : PretestState → PretestState
  raise_marks state =
      let peak = larger state.max_equity state.equity in
      record state {
        max_equity = peak;
        max_drawdown_pct = larger state.max_drawdown_pct (drawdown_of peak state.equity);
      }

  -- the cash, the positions and the equity after the quotes
  abbrev pub revalue :
      Number → List PretestPosition → List PretestPosition → PretestState → PretestState
  revalue pct marked arrived state =
      let cash = charge_borrow pct arrived state.cash in
      record state {
        cash = cash;
        positions = marked;
        equity = a.add cash (sum_values marked zero_num);
      }

  -- `_updateEquityMetrics`, with the number of the benchmark's symbol
  unfoldable pub update_equity_metrics :
      ℕ → PretestState → PretestPolicy → (ℕ → Number) → Trial PretestState
  update_equity_metrics benchmark_symbol state policy reference_closes = do
    marked ← mark_all state.positions reference_closes
    arrived ← ask (λ e n. e.arrival n marked)
    bench ← ask (λ e n. e.quote n benchmark_symbol)
    let valued : PretestState = revalue policy.borrow_cost_pct marked arrived state
    pure (raise_marks (benchmarked benchmark_symbol reference_closes bench valued))
