-- ===== src/Pretest/Gate.antt =====
-- The significance gate of pretest.service.ts: the statistics of the closed trades, the thresholds that
-- the key-value table sets, and their comparison. The texts of the reasons are a data type.
use open_neotrader.Base.{
  ℕ, suc, ◌-◌, String, Bool, true, false, ◌&&◌, ◌||◌, Option, none, some, List, [], ◌∷◌, ◌++◌,
  length, select, ltb, leb, map, or_default, is_some, if◌then◌else◌,
}
use open_neotrader.Number.{Number, zero_num, num_of, num_lt, num_le, num_abs}
use open_neotrader.Exec.{pure, gets, ◌>>=◌}
use open_neotrader.Execution.Account.{Arithmetic}
use open_neotrader.Common.Kv.{Readers, kv_num}
use open_neotrader.TradeIntent.Policy.{binary}
use open_neotrader.Pretest.State.{
  PretestAction, sell, close, PretestTrade, PretestState, Trial, read_kv,
}

-- `SignificanceMetrics`
pub record SignificanceMetrics : Type 0 where
  pub sharpe : Number
  pub profit_factor : Option Number
  pub win_rate : Number
  pub max_dd : Number
  pub n_trades : ℕ
  pub loss_trades : ℕ
  pub alpha_pct : Option Number
  pub avg_win : Number
  pub avg_loss : Number
  pub payoff_ratio : Option Number
  pub expectancy : Number

abbrev is_sale : PretestAction → Bool
is_sale sell = true
is_sale close = true
is_sale _ = false

-- the trades that the statistics are about
abbrev pub is_closing : PretestTrade → Bool
is_closing t = is_sale t.action && is_some t.pnl

abbrev pub pnl_of : PretestTrade → Number
pnl_of t = or_default t.pnl zero_num

-- the double next to `1e-10`
unfoldable pub rel_epsilon : Number
unfolding binary
rel_epsilon = binary 7737125245533627 86

-- the sums and counts of one pass over the closed trades
pub record WinLoss : Type 0 where
  pub sum_pos : Number
  pub sum_neg : Number
  pub wins : ℕ
  pub losses : ℕ

abbrev pub no_win_loss : WinLoss
no_win_loss = record { sum_pos = zero_num; sum_neg = zero_num; wins = 0; losses = 0 }

module _ (a : Arithmetic) where
  -- the loop of `_computeWinLossStats`
  unfoldable pub tally_pnl : List PretestTrade → WinLoss → WinLoss
  tally_pnl [] s = s
  tally_pnl (t ∷ ts) s =
      let pnl = pnl_of t in
      let won = record s { sum_pos = a.add s.sum_pos pnl; wins = suc s.wins } in
      let lost = record s { sum_neg = a.add s.sum_neg (num_abs pnl); losses = suc s.losses } in
      tally_pnl ts (if num_lt zero_num pnl then won else if num_lt pnl zero_num then lost else s)

  abbrev rounded_to : ℕ → Number → Number
  rounded_to n x = a.div (a.round (a.mul x (num_of n))) (num_of n)

  abbrev ratio : Number → Number → Option Number
  ratio x y = if num_lt zero_num y then some (a.div x y) else none

  abbrev mean_of : Number → ℕ → Number
  mean_of sum n = if ltb 0 n then a.div sum (num_of n) else zero_num

  abbrev round_ratio : Option Number → Option Number
  round_ratio none = none
  round_ratio (some r) = some (rounded_to 10000 r)

  -- `r_i` of a closed trade
  abbrev pub return_of : PretestTrade → Number
  return_of t =
      let cost_basis = a.mul (or_default t.entry_price t.price) t.quantity in
      if num_lt zero_num cost_basis then a.div (pnl_of t) cost_basis else zero_num

  abbrev sum_returns : List Number → Number → Number
  sum_returns [] total = total
  sum_returns (r ∷ rs) total = sum_returns rs (a.add total r)

  -- `(r - mean) ** 2`
  abbrev squares : Number → List Number → Number → Number
  squares mean [] total = total
  squares mean (r ∷ rs) total = squares mean rs (a.add total (a.mul (a.sub r mean) (a.sub r mean)))

  -- the Sharpe ratio of the returns
  unfoldable pub sharpe_of : (Number → Number) → List Number → Number
  sharpe_of sqrt rs =
      let n = length rs in
      let mean = a.div (sum_returns rs zero_num) (num_of n) in
      let std = sqrt (a.div (squares mean rs zero_num) (num_of (n - 1))) in
      let effectively_zero =
        num_le std rel_epsilon
        || (num_lt zero_num (num_abs mean) && num_le (a.div std (num_abs mean)) rel_epsilon) in
      if leb 2 n then (if effectively_zero then zero_num else a.div mean std) else zero_num

  abbrev alpha_above : Option Number → Number → Number → Option Number
  alpha_above none equity initial = none
  alpha_above (some benchmark) equity initial =
      if num_lt zero_num initial
      then some (a.sub (a.mul (a.div (a.sub equity initial) initial) (num_of 100)) benchmark)
      else none

  abbrev no_trades : Number → Option Number → SignificanceMetrics
  no_trades max_dd alpha_pct = record {
    sharpe = zero_num;
    profit_factor = none;
    win_rate = zero_num;
    max_dd = max_dd;
    n_trades = 0;
    loss_trades = 0;
    alpha_pct = alpha_pct;
    avg_win = zero_num;
    avg_loss = zero_num;
    payoff_ratio = none;
    expectancy = zero_num;
  }

  -- `computeSignificance` of a portfolio with its initial capital, with `_computeWinLossStats`
  unfoldable pub compute_significance :
      (Number → Number) → PretestState → Number → SignificanceMetrics
  compute_significance sqrt state initial_capital =
      let alpha_pct = alpha_above state.benchmark_return_pct state.equity initial_capital in
      let trades = select is_closing state.trades in
      let n = length trades in
      let s = tally_pnl trades no_win_loss in
      let win_rate = a.div (num_of s.wins) (num_of n) in
      let loss_rate = a.div (num_of s.losses) (num_of n) in
      let avg_win = mean_of s.sum_pos s.wins in
      let avg_loss = mean_of s.sum_neg s.losses in
      let expectancy = a.sub (a.mul win_rate avg_win) (a.mul loss_rate avg_loss) in
      if leb n 0 then no_trades state.max_drawdown_pct alpha_pct else record {
        sharpe = sharpe_of sqrt (map return_of trades);
        profit_factor = ratio s.sum_pos s.sum_neg;
        win_rate = win_rate;
        max_dd = state.max_drawdown_pct;
        n_trades = n;
        loss_trades = s.losses;
        alpha_pct = alpha_pct;
        avg_win = rounded_to 100 avg_win;
        avg_loss = rounded_to 100 avg_loss;
        payoff_ratio = round_ratio (ratio avg_win avg_loss);
        expectancy = rounded_to 100 expectancy;
      }

-- the thresholds of the gate
pub record GateThresholds : Type 0 where
  pub min_trades : Number
  pub min_sharpe : Number
  pub max_dd_pct : Number
  pub min_loss_trades : Number
  pub min_alpha : Number

-- the texts of the five keys
pub record RawThresholds : Type 0 where
  pub min_trades : Option String
  pub min_sharpe : Option String
  pub max_dd_pct : Option String
  pub min_loss_trades : Option String
  pub min_alpha : Option String

abbrev at_least : Number → Number → Number
at_least floor n = if num_le floor n then n else floor

-- what `_readGateThresholds` makes of the texts
unfoldable pub thresholds_of : Readers → RawThresholds → GateThresholds
thresholds_of r raw =
    let max_dd = kv_num r raw.max_dd_pct (num_of 20) in
    record {
      min_trades = at_least (num_of 1) (kv_num r raw.min_trades (num_of 20));
      min_sharpe = at_least zero_num (kv_num r raw.min_sharpe (num_of 1));
      max_dd_pct =
          if num_le (num_of 1) max_dd && num_le max_dd (num_of 100) then max_dd else num_of 20;
      min_loss_trades = at_least zero_num (kv_num r raw.min_loss_trades (num_of 3));
      min_alpha = kv_num r raw.min_alpha zero_num;
    }

-- `_readGateThresholds`; readings that the code starts together are made one after another
unfoldable pub read_gate_thresholds : Trial GateThresholds
read_gate_thresholds = do
  readers ← gets (λ w. w.external.readers)
  trades ← read_kv "pretest.gate.min_trades"
  sharpe ← read_kv "pretest.gate.min_sharpe"
  max_dd ← read_kv "pretest.gate.max_dd_pct"
  losses ← read_kv "pretest.gate.min_loss_trades"
  alpha ← read_kv "pretest.gate.min_alpha"
  pure (
      thresholds_of readers (record {
        min_trades = trades;
        min_sharpe = sharpe;
        max_dd_pct = max_dd;
        min_loss_trades = losses;
        min_alpha = alpha;
      }))

-- why the gate is not passed
pub data GateReason : Type 0 where
  min_trades_not_met min_sharpe_not_met max_dd_exceeded : GateReason
  insufficient_loss_trades negative_alpha : GateReason

abbrev reason_if : Bool → GateReason → List GateReason
reason_if true r = r ∷ []
reason_if false r = []

abbrev is_below : Option Number → Number → Bool
is_below none bound = false
is_below (some x) bound = num_lt x bound

-- `_evaluateGate`
unfoldable pub evaluate_gate : SignificanceMetrics → GateThresholds → List GateReason
evaluate_gate m t =
    reason_if (num_lt (num_of m.n_trades) t.min_trades) min_trades_not_met
    ++ reason_if (num_lt m.sharpe t.min_sharpe) min_sharpe_not_met
    ++ reason_if (num_lt t.max_dd_pct m.max_dd) max_dd_exceeded
    ++ reason_if (num_lt (num_of m.loss_trades) t.min_loss_trades) insufficient_loss_trades
    ++ reason_if (is_below m.alpha_pct t.min_alpha) negative_alpha
