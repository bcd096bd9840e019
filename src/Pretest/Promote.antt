-- ===== src/Pretest/Promote.antt =====
-- `gate`, `promote`, `_applyPlugins`, `reset` and `delete` of pretest.service.ts. The
-- recomputation of reputations that `gate` starts without waiting for it is a step of its own, which
-- writes the plugins' table, and is left out.
use open_neotrader.Base.{
  ℕ, String, Bool, true, false, not, ◌&&◌, none, List, [], ◌∷◌, ◌++◌, ◌==◌, find, select,
  update_where, some_of, if◌then◌else◌,
}
use open_neotrader.Number.{Number, zero_num}
use open_neotrader.Exec.{
  Result, ok, err, record_not_found, pure, raise, gets, modify, attempt, ◌>>=◌, ◌>>◌, on_option,
  on_result,
}
use open_neotrader.Common.Kv.{kv_bool}
use open_neotrader.Pretest.State.{
  PretestState, PretestPortfolio, Trial, stored_state, store_call, read_kv, activate_plugin,
  set_plugin_config,
}
use open_neotrader.Pretest.Gate.{
  SignificanceMetrics, GateReason, compute_significance, read_gate_thresholds, evaluate_gate,
}

-- `DEFAULT_STATE`
unfoldable pub default_state : Number → PretestState
default_state capital = record {
  equity = capital;
  cash = capital;
  positions = [];
  trades = [];
  max_equity = capital;
  max_drawdown_pct = zero_num;
  realized_pnl = zero_num;
  win_trades = 0;
  loss_trades = 0;
  benchmark_return_pct = none;
  benchmark_start_price = none;
  hwm = none;
  day_key = none;
  day_start_equity = none;
  week_key = none;
  week_start_equity = none;
}

-- `findOne`
unfoldable pub find_one : ℕ → Trial PretestPortfolio
find_one id = do
  store_call
  row ← gets (λ w. find (λ p. p.id == id) w.portfolios)
  on_option row pure (raise record_not_found)

-- `GateResult`, which is ready where there is no reason against it
pub record GateResult : Type 0 where
  pub reasons : List GateReason
  pub metrics : SignificanceMetrics

abbrev pub is_ready : List GateReason → Bool
is_ready [] = true
is_ready (_ ∷ _) = false

-- `gate`
unfoldable pub gate : ℕ → Trial GateResult
gate id = do
  portfolio ← find_one id
  e ← gets (λ w. w.external)
  let metrics : SignificanceMetrics =
      compute_significance e.arithmetic e.sqrt portfolio.state portfolio.initial_capital
  thresholds ← read_gate_thresholds
  pure (record { reasons = evaluate_gate metrics thresholds; metrics = metrics })

-- what became of a plugin: whether it was activated and configured
pub record AppliedPlugin : Type 0 where
  pub plugin_id : ℕ
  pub activated : Bool
  pub config_set : Bool

pub data ApplyStep : Type 0 where
  activate_step set_config_step : ApplyStep

abbrev pub Applied : Type 0
Applied = List AppliedPlugin × List (ℕ × ApplyStep)

abbrev pub applied_as : ℕ → Bool → Bool → AppliedPlugin
applied_as id activated config_set = record {
  plugin_id = id;
  activated = activated;
  config_set = config_set;
}

abbrev after_config : ℕ → Applied → Result (Unit {0}) → Applied
after_config id (applied, failed) (ok _) = (applied ++ applied_as id true true ∷ [], failed)
after_config id (applied, failed) (err _) =
    (applied ++ applied_as id true false ∷ [], failed ++ (id, set_config_step) ∷ [])

-- one round of `_applyPlugins`
unfoldable pub apply_plugin : List ℕ → ℕ → Applied → Trial Applied
apply_plugin configured id (applied, failed) = do
  activation ← attempt (activate_plugin id)
  on_result activation
      (λ _.
        if some_of (λ c. c == id) configured
        then (do
          outcome ← attempt (set_plugin_config id)
          pure (after_config id (applied, failed) outcome))
        else pure (applied ++ applied_as id true false ∷ [], failed))
      (λ _. pure (applied ++ applied_as id false false ∷ [], failed ++ (id, activate_step) ∷ []))

-- `_applyPlugins`
unfoldable pub apply_plugins : List ℕ → List ℕ → Applied → Trial Applied
apply_plugins configured [] so_far = pure so_far
apply_plugins configured (id ∷ ids) so_far =
    apply_plugin configured id so_far >>= apply_plugins configured ids

-- `PromoteResult`
pub data PromoteResult : Type 0 where
  gate_error : PromoteResult
  gate_not_ready : List GateReason → PromoteResult
  needs_confirmation : List ℕ → PromoteResult
  promoted : Applied → PromoteResult

abbrev pub confirm_key : String
confirm_key = "promotion.require_human_confirm"

-- `audit.log`
unfoldable pub audit : Trial (Unit {0})
audit = store_call

unfoldable pub apply_promotion : PretestPortfolio → Trial PromoteResult
apply_promotion pf = do
  applied ← apply_plugins pf.configured_ids pf.plugin_ids ([], [])
  audit
  pure (promoted applied)

-- `promote` of a portfolio that is ready
unfoldable pub promote_ready : PretestPortfolio → Bool → Trial PromoteResult
promote_ready pf confirm = do
  raw ← read_kv confirm_key
  readers ← gets (λ w. w.external.readers)
  if kv_bool readers raw true && not confirm
      then pure (needs_confirmation pf.plugin_ids)
      else apply_promotion pf

unfoldable pub promote_gated : PretestPortfolio → Bool → GateResult → Trial PromoteResult
promote_gated pf confirm g =
    if is_ready g.reasons
    then promote_ready pf confirm
    else audit >> pure (gate_not_ready g.reasons)

-- `promote`
unfoldable pub promote : ℕ → Bool → Trial PromoteResult
promote id confirm = do
  pf ← find_one id
  g ← attempt (gate id)
  on_result g (promote_gated pf confirm) (λ _. audit >> pure gate_error)

-- the portfolio as `reset` leaves it
abbrev pub cleared : PretestPortfolio → PretestPortfolio
cleared p = record p {
  state = stored_state (default_state p.initial_capital);
  run_count = 0;
  last_run_at = none;
}

-- `reset`
unfoldable pub reset : ℕ → Trial PretestPortfolio
reset id = do
  existing ← find_one id
  store_call
  modify (λ w. record w { portfolios = update_where (λ p. p.id == id) cleared w.portfolios })
  pure (cleared existing)

-- `delete`
unfoldable pub delete : ℕ → Trial (Unit {0})
delete id = do
  find_one id
  modify (λ w. record w { portfolios = select (λ p. not (p.id == id)) w.portfolios })
