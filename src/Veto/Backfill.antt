-- ===== src/Veto/Backfill.antt =====
-- `backfill` of veto-analyzer.service.ts, the tick that calls it, and the interval of the ticks.
use open_neotrader.Base.{
  ℕ, suc, String, Bool, true, false, not, ◌&&◌, ◌||◌, Option, none, some, List, [], ◌∷◌,
  if◌then◌else◌, is_some,
}
use open_neotrader.Number.{Number, zero_num, num_lt, num_le, is_finite}
use open_neotrader.Exec.{
  gateway, Result, ok, err, pure, raise, gets, attempt, ensuring, modify, skip, ◌>>=◌, ◌>>◌,
  on_option, on_result,
}
use open_neotrader.Execution.Account.{Arithmetic}
use open_neotrader.Common.Kv.{kv_num}
use open_neotrader.Veto.State.{
  CfMethod, fixed_horizon, VetoDecisionRow, OhlcvBar, VetoLedger, Work, ask, find_decisions,
  update_decision, read_kv,
}
use open_neotrader.Veto.Mark.{
  BackfillOptions, ResolvedBackfillOptions, resolve_options, is_supported_action, is_mature,
  compute_needed_fetch_limit, locate_mark_bar, compute_net_unit_return,
}

-- `BackfillSummary`
pub record BackfillSummary : Type 0 where
  pub evaluated : ℕ
  pub insufficient_data : ℕ
  pub unsupported_action : ℕ
  pub invalid_ref_price : ℕ
  pub pending : ℕ
  pub errors : ℕ

abbrev pub empty_summary : BackfillSummary
empty_summary = record {
  evaluated = 0;
  insufficient_data = 0;
  unsupported_action = 0;
  invalid_ref_price = 0;
  pending = 0;
  errors = 0;
}

abbrev is_insufficient : Option CfMethod → Bool
is_insufficient (some CfMethod.insufficient_data) = true
is_insufficient _ = false

-- the `where` of `backfill`
unfoldable pub is_selected : Bool → VetoDecisionRow → Bool
is_selected reprocess row =
    (not (is_some row.cf_pnl) && not (is_some row.cf_method))
    || (reprocess && is_insufficient row.cf_method)

-- `getOhlcv`
unfoldable pub get_ohlcv : ℕ → String → ℕ → Work (List OhlcvBar)
get_ohlcv symbol timeframe limit = do
  answer ← ask (λ e n. e.ohlcv n symbol timeframe limit)
  on_option answer pure (raise (gateway "no bars"))

abbrev pub completed : Option Number → CfMethod → ℕ → VetoDecisionRow → VetoDecisionRow
completed pnl method time row = record row {
  cf_pnl = pnl;
  cf_method = some method;
  cf_evaluated_at = some time;
}

-- `_markUnresolvable`
unfoldable pub mark_unresolvable : VetoDecisionRow → CfMethod → Work (Unit {0})
mark_unresolvable row method = do
  time ← ask (λ e. e.now)
  update_decision row.id (completed none method time)

-- `ref_price` where it is a finite positive number
abbrev pub valid_ref_price : Option Number → Option Number
valid_ref_price none = none
valid_ref_price (some p) = if num_lt zero_num p && is_finite p then some p else none

-- the counterfactual P&L of the proposed trade
abbrev pub cf_pnl_of :
    Arithmetic → ResolvedBackfillOptions → VetoDecisionRow → Number → Number → Number
cf_pnl_of a opts row ref_price mark_price =
    let unit = compute_net_unit_return a row.proposed_action ref_price mark_price opts.cost_bps in
    a.mul (a.mul unit ref_price) row.proposed_qty

module _ (opts : ResolvedBackfillOptions) (row : VetoDecisionRow) (summary : BackfillSummary) where
  unfoldable pub write_evaluation : Number → OhlcvBar → Work BackfillSummary
  write_evaluation ref_price bar = do
    a ← gets (λ w. w.external.arithmetic)
    time ← ask (λ e. e.now)
    update_decision row.id (
        completed (some (cf_pnl_of a opts row ref_price bar.close))
          (fixed_horizon opts.horizon_bars opts.timeframe opts.cost_bps) time)
    pure (record summary { evaluated = suc summary.evaluated })

  unfoldable pub give_up : Work BackfillSummary
  give_up = do
    mark_unresolvable row CfMethod.insufficient_data
    pure (record summary { insufficient_data = suc summary.insufficient_data })

  -- `_evaluateRow` of a decision that is old enough
  unfoldable pub evaluate_mature : Number → ℕ → Work BackfillSummary
  evaluate_mature ref_price now = do
    let limit : ℕ = compute_needed_fetch_limit row.ts opts.horizon_bars opts.timeframe now
    bars ← get_ohlcv row.symbol opts.timeframe limit
    e ← gets (λ w. w.external)
    let located : Result (Option OhlcvBar) =
        locate_mark_bar e.date_parse bars (e.to_iso_string row.ts) opts.horizon_bars
    mark_bar ← on_result located pure raise
    on_option mark_bar (write_evaluation ref_price) give_up

  unfoldable pub evaluate_priced : Number → Work BackfillSummary
  evaluate_priced ref_price = do
    now ← ask (λ e. e.now)
    if is_mature row.ts opts.horizon_bars opts.timeframe now
        then evaluate_mature ref_price now
        else pure (record summary { pending = suc summary.pending })

  unfoldable pub refuse_price : Work BackfillSummary
  refuse_price = do
    mark_unresolvable row CfMethod.invalid_ref_price
    pure (record summary { invalid_ref_price = suc summary.invalid_ref_price })

  unfoldable pub refuse_action : Work BackfillSummary
  refuse_action = do
    mark_unresolvable row CfMethod.unsupported_action
    pure (record summary { unsupported_action = suc summary.unsupported_action })

  -- `_evaluateRow`, whose value is what it makes of the summary
  unfoldable pub evaluate_row : Work BackfillSummary
  evaluate_row =
      if is_supported_action row.proposed_action
      then on_option (valid_ref_price row.ref_price) evaluate_priced refuse_price
      else refuse_action

-- the summary after a row, which counts what was thrown
abbrev pub tallied : Result BackfillSummary → BackfillSummary → BackfillSummary
tallied (ok after) before = after
tallied (err _) before = record before { errors = suc before.errors }

-- the loop of `backfill`
unfoldable pub backfill_rows :
    ResolvedBackfillOptions → List VetoDecisionRow → BackfillSummary → Work BackfillSummary
backfill_rows opts [] summary = pure summary
backfill_rows opts (row ∷ rows) summary = do
  outcome ← attempt (evaluate_row opts row summary)
  backfill_rows opts rows (tallied outcome summary)

-- `backfill`
unfoldable pub backfill : BackfillOptions → Work BackfillSummary
backfill opts = do
  let resolved : ResolvedBackfillOptions = resolve_options opts
  rows ← find_decisions (is_selected resolved.reprocess_insufficient)
  backfill_rows resolved rows empty_summary

abbrev no_options : BackfillOptions
no_options = record {
  horizon_bars = none;
  timeframe = none;
  cost_bps = none;
  reprocess_insufficient = none;
}

abbrev pub set_running : Bool → VetoLedger → VetoLedger
set_running b w = record w { backfill_running = b }

-- `_backfillTick`
unfoldable pub backfill_tick : Work (Unit {0})
backfill_tick = do
  running ← gets (λ w. w.backfill_running)
  let sweep : Work (Unit {0}) = do
    modify (set_running true)
    ensuring (attempt (backfill no_options) >> skip) (set_running false)
  if running then skip else sweep

abbrev pub backfill_interval_key : String
backfill_interval_key = "veto.backfill_interval_ms"

abbrev or_null : Result (Option String) → Option String
or_null (ok raw) = raw
or_null (err _) = none

-- `_readBackfillIntervalMs`
unfoldable pub read_backfill_interval_ms : Work Number
read_backfill_interval_ms = do
  readers ← gets (λ w. w.external.readers)
  raw ← attempt (read_kv backfill_interval_key)
  pure (kv_num readers (or_null raw) zero_num)

-- `onModuleInit`: the interval of the timer that it starts, if it starts one
unfoldable pub on_module_init : Work (Option Number)
on_module_init = do
  interval_ms ← read_backfill_interval_ms
  pure (if num_le interval_ms zero_num then none else some interval_ms)
