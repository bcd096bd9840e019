-- ===== src/Pretest/Rebalance.antt =====
-- `_freshMarks`, `_oneRebalanceTrade` and `_buildVolTargetRebalanceTrades` of pretest.service.ts: the
-- trades that bring the longs to a share of the equity. `_freshMarks` keeps its marks by symbol, here
-- they stand beside the positions: a portfolio has one position of each symbol.
use open_neotrader.Base.{ℕ, not, ◌||◌, List, [], ◌∷◌, ◌++◌, select, leb, length, if◌then◌else◌}
use open_neotrader.Number.{Number, zero_num, num_of, num_lt, num_le, num_min, num_abs, is_finite}
use open_neotrader.Exec.{pure, ◌>>=◌}
use open_neotrader.Execution.Account.{Arithmetic}
use open_neotrader.Pretest.State.{
  PretestAction, buy, sell, PretestTrade, PretestPosition, PretestState, Trial, ask,
}
use open_neotrader.Pretest.Fill.{fill_at, mark_by}

module _ (a : Arithmetic) where
  -- a position and the price that it is rebalanced at
  abbrev pub Priced : Type 0
  Priced = PretestPosition × Number

  -- the loop of `_freshMarks`, with the prices of `priceOf`
  unfoldable pub fresh_marks : List PretestPosition → (ℕ → Number) → Trial (List Priced)
  fresh_marks [] reference_closes = pure []
  fresh_marks (pos ∷ ps) reference_closes = do
    quote ← ask (λ e n. e.quote n pos.symbol)
    rest ← fresh_marks ps reference_closes
    pure ((pos, mark_by a pos reference_closes quote) ∷ rest)

  abbrev pub traded : PretestPosition → PretestAction → Number → Number → ℕ → List PretestTrade
  traded pos action price quantity ts =
      if num_lt zero_num quantity then fill_at a pos.symbol action price quantity ts ∷ [] else []

  -- `_oneRebalanceTrade`
  unfoldable pub one_rebalance_trade : PretestPosition → Number → Number → ℕ → List PretestTrade
  one_rebalance_trade pos price symbol_delta_usd ts =
      if num_le price zero_num
      then []
      else if num_lt zero_num symbol_delta_usd
      then traded pos buy price (a.floor (a.div symbol_delta_usd price)) ts
      else traded pos sell price
          (num_min pos.quantity (a.floor (a.div (num_abs symbol_delta_usd) price))) ts

  abbrev invested : List Priced → Number → Number
  invested [] total = total
  invested ((pos, price) ∷ ps) total = invested ps (a.add total (a.mul pos.quantity price))

  abbrev pub rebalance_each : List Priced → Number → Number → ℕ → List PretestTrade
  rebalance_each [] delta current ts = []
  rebalance_each ((pos, price) ∷ ps) delta current ts =
      let weight = a.div (a.mul pos.quantity price) current in
      one_rebalance_trade pos price (a.mul delta weight) ts ++ rebalance_each ps delta current ts

  -- the trades of marked positions towards what is to be invested
  abbrev pub rebalance : Number → Number → List Priced → Trial (List PretestTrade)
  rebalance exposure_scalar equity ps =
      let current = invested ps zero_num in
      let delta = a.sub (a.mul exposure_scalar equity) current in
      if num_le current zero_num || num_lt (num_abs delta) (num_of 1)
      then pure []
      else ask (λ e n. rebalance_each ps delta current (e.now n))

  -- `_buildVolTargetRebalanceTrades`
  unfoldable pub build_vol_target_rebalance_trades :
      PretestState → Number → (ℕ → Number) → Trial (List PretestTrade)
  build_vol_target_rebalance_trades state exposure_scalar reference_closes =
      let longs = select (λ p. num_lt zero_num p.quantity) state.positions in
      if leb (length longs) 0 || not (is_finite exposure_scalar) || num_lt exposure_scalar zero_num
      then pure []
      else fresh_marks longs reference_closes >>= rebalance exposure_scalar state.equity
