-- ===== src/Pretest/Reputation.antt =====
-- The reputation of a plugin of pretest.service.ts: `computePluginReputation`.
use open_neotrader.Base.{
  ℕ, Bool, Option, none, some, List, [], ◌∷◌, ◌==◌, select, some_of, leb, length, if◌then◌else◌,
}
use open_neotrader.Number.{Number, zero_num, num_of, num_lt, num_max, num_min}
use open_neotrader.Exec.{pure, gets, ◌>>=◌, ◌>>◌}
use open_neotrader.Execution.Account.{Arithmetic}
use open_neotrader.TradeIntent.Policy.{binary}
use open_neotrader.Pretest.State.{PretestPortfolio, Trial, store_call}
use open_neotrader.Pretest.Gate.{
  SignificanceMetrics, GateThresholds, compute_significance, read_gate_thresholds, evaluate_gate,
}
use open_neotrader.Pretest.Promote.{is_ready}

-- the weights and targets of the reputation: `0.5`, and the doubles next to `0.3` and `0.2`
unfoldable pub w_sharpe : Number
unfolding binary
w_sharpe = binary 1 1

unfoldable pub w_return : Number
unfolding binary
w_return = binary 5404319552844595 54

unfoldable pub w_risk : Number
unfolding binary
w_risk = binary 3602879701896397 54

-- the sums over the portfolios that are ready
pub record ReputationSums : Type 0 where
  pub sharpe : Number
  pub return_pct : Number
  pub worst_dd_pct : Number

-- `ReputationResult`
pub record ReputationSample : Type 0 where
  pub score : Number
  pub portfolios_count : ℕ
  pub avg_sharpe : Number
  pub avg_return_pct : Number
  pub worst_dd_pct : Number

abbrev pub clamp : Number → Number → Number → Number
clamp v lo hi = num_max lo (num_min hi v)

module _ (a : Arithmetic) (sqrt : Number → Number) where
  abbrev pub significance : PretestPortfolio → SignificanceMetrics
  significance p = compute_significance a sqrt p.state p.initial_capital

  abbrev add_portfolio : PretestPortfolio → ReputationSums → ReputationSums
  add_portfolio p s = record {
    sharpe = a.add s.sharpe (significance p).sharpe;
    return_pct =
        a.add s.return_pct
          (a.mul (a.div (a.sub p.state.equity p.initial_capital) p.initial_capital) (num_of 100));
    worst_dd_pct =
        if num_lt s.worst_dd_pct p.state.max_drawdown_pct
        then p.state.max_drawdown_pct
        else s.worst_dd_pct;
  }

  -- the loop of `computePluginReputation`
  unfoldable pub sum_portfolios : List PretestPortfolio → ReputationSums → ReputationSums
  sum_portfolios [] s = s
  sum_portfolios (p ∷ ps) s = sum_portfolios ps (add_portfolio p s)

  -- the composite score of the averages
  unfoldable pub reputation_score : Number → Number → Number → Number
  reputation_score avg_sharpe avg_return_pct worst_dd_pct =
      let one = num_of 1 in
      let n_sharpe = clamp (a.div avg_sharpe (num_of 2)) zero_num one in
      let n_return = clamp (a.div avg_return_pct (num_of 50)) zero_num one in
      let n_risk = clamp (a.sub one (a.div worst_dd_pct (num_of 50))) zero_num one in
      let raw =
        a.add (a.add (a.mul w_sharpe n_sharpe) (a.mul w_return n_return)) (a.mul w_risk n_risk) in
      a.div (a.round (a.mul (a.mul (clamp raw zero_num one) (num_of 100)) (num_of 10))) (num_of 10)

  abbrev sample_of : List PretestPortfolio → ReputationSums → ReputationSample
  sample_of ps s =
      let n = num_of (length ps) in
      record {
        score = reputation_score (a.div s.sharpe n) (a.div s.return_pct n) s.worst_dd_pct;
        portfolios_count = length ps;
        avg_sharpe = a.div s.sharpe n;
        avg_return_pct = a.div s.return_pct n;
        worst_dd_pct = s.worst_dd_pct;
      }

  abbrev pub sample_ready : List PretestPortfolio → Option ReputationSample
  sample_ready [] = none
  sample_ready (p ∷ ps) = some (
      sample_of (p ∷ ps) (
        sum_portfolios (p ∷ ps)
          (record { sharpe = zero_num; return_pct = zero_num; worst_dd_pct = zero_num })))

  abbrev pub ready_with : GateThresholds → PretestPortfolio → Bool
  ready_with t p = is_ready (evaluate_gate (significance p) t)

  unfoldable pub reputation_of : GateThresholds → List PretestPortfolio → Option ReputationSample
  reputation_of t containing = sample_ready (select (ready_with t) containing)

-- `computePluginReputation`, whose score is null where there is no sample
unfoldable pub compute_plugin_reputation : ℕ → Trial (Option ReputationSample)
compute_plugin_reputation id = do
  store_call
  all ← gets (λ w. w.portfolios)
  e ← gets (λ w. w.external)
  let containing : List PretestPortfolio = select (λ p. some_of (λ i. i == id) p.plugin_ids) all
  let scored : Trial (Option ReputationSample) = do
    thresholds ← read_gate_thresholds
    pure (reputation_of e.arithmetic e.sqrt thresholds containing)
  if leb (length containing) 0 then pure none else scored
