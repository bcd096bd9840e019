-- ===== src/Tests/Vetoes.antt =====
-- The ledger of vetoed signals, completed and summed up.
use text.Mathlib.Text.{◌==◌ as str_eq}
use open_neotrader.Base.{
  ℕ, String, ◌≡◌, ◌≤◌, ◌⊎◌, refl, if◌then◌else◌, true, false, Option, none, some, List, [], ◌∷◌,
  ◌+◌, ◌*◌, All, find, select, length, ◌==◌,
}
use open_neotrader.Number.{zero_num, num_lt, num_of}
use open_neotrader.Exec.{ok}
use open_neotrader.Veto.State.{
  unsupported_action, insufficient_data, fixed_horizon, VetoDecisionRow, OhlcvBar, VetoExternal,
  VetoLedger,
}
use open_neotrader.Veto.Mark.{
  BackfillOptions, resolve_options, max_fetch_limit, fetch_limit_buffer, bar_duration_ms,
  compute_needed_fetch_limit, locate_mark_bar,
}
use open_neotrader.Veto.Backfill.{BackfillSummary, backfill, is_selected}
use open_neotrader.Veto.Report.{MetricsWindow, VetoMetricsReport, get_metrics, in_metrics}
use open_neotrader.Veto.Plugins.{PluginValueReport, get_plugin_value, in_plugin_value}
use open_neotrader.Veto.Later.{IsMark, locate_mark_bar-IsMark}
use open_neotrader.Veto.Fetch.{compute_needed_fetch_limit-covers}
use open_neotrader.Veto.Ledger.{selected, IsConsistent, backfill-IsConsistent, backfill-others}
use open_neotrader.Veto.Tally.{total, backfill-total}
use open_neotrader.Veto.Sums.{is_method, contributions, sum_from, get_metrics-sums}
use open_neotrader.Veto.Attribution.{values, IsMean, IsListed, get_plugin_value-counts}
use open_neotrader.Tests.{external, first_number, ten}

abbrev bar : String → OhlcvBar
bar ts = record { ts = ts; close = ten }

-- the bars come out of order, and every text is read as the time 7
abbrev bars : List OhlcvBar
bars = bar "b" ∷ bar "a" ∷ []

abbrev read_seven : String → Option ℕ
read_seven ts = some 7

-- the decision at 7, and the bars after it at 8 and 9
abbrev read_time : String → Option ℕ
read_time ts =
    if str_eq ts "t"
    then some 7
    else if str_eq ts "a"
    then some 8
    else if str_eq ts "b"
    then some 9
    else none

-- the bar with one later bar before it is the one at 9
locate_mark_bar-IsMark_example : IsMark read_time 7 bars 1 (locate_mark_bar read_time bars "t" 2)
locate_mark_bar-IsMark_example = locate_mark_bar-IsMark read_time bars "t" 1 refl

locate_mark_bar_test : locate_mark_bar read_time bars "t" 2 ≡ ok (some (bar "b"))
unfolding locate_mark_bar
locate_mark_bar_test = refl

compute_needed_fetch_limit-covers_example :
    let limit = compute_needed_fetch_limit 1000 5 "1m" 200000 in
    (limit ≤ max_fetch_limit)
    × ((limit ≡ max_fetch_limit)
        ⊎ (200000 + (5 + fetch_limit_buffer) * bar_duration_ms "1m"
            ≤ 1000 + limit * bar_duration_ms "1m"))
compute_needed_fetch_limit-covers_example = compute_needed_fetch_limit-covers 1000 5 200000 "1m"

abbrev veto_external : VetoExternal
veto_external = record {
  store_works = λ _. true;
  now = λ n. 900000000 + n;
  ohlcv = λ _ _ _ _. some bars;
  date_parse = read_seven;
  to_iso_string = λ _. "t";
  is_blank = λ _. false;
  readers = external.readers;
  arithmetic = first_number;
}

-- a blocked long of symbol 5 that is yet to be evaluated
abbrev vetoed : VetoDecisionRow
vetoed = record {
  id = 1;
  ts = 7;
  symbol = 5;
  source_plugin = "momentum";
  verdict = "blocked";
  proposed_action = "long";
  proposed_qty = ten;
  approved_qty = none;
  ref_price = some ten;
  discipline = some "risk";
  cf_pnl = none;
  cf_method = none;
  cf_evaluated_at = none;
}

abbrev evaluated : VetoDecisionRow
evaluated = record vetoed {
  id = 2;
  cf_pnl = some ten;
  cf_method = some (fixed_horizon 5 "1d" (num_of 10));
  cf_evaluated_at = some 9;
}

abbrev ledger : VetoLedger
ledger = record {
  external = veto_external;
  calls_made = 0;
  decisions = vetoed ∷ evaluated ∷ [];
  kv = [];
  backfill_running = false;
}

abbrev usual : BackfillOptions
usual = record {
  horizon_bars = none;
  timeframe = none;
  cost_bps = none;
  reprocess_insufficient = none;
}

backfill-IsConsistent_example : All IsConsistent (backfill usual ledger).1.decisions
backfill-IsConsistent_example = backfill-IsConsistent usual ledger (refl, (refl, tt))

backfill-others_example : find (λ s. s.id == 2) (backfill usual ledger).1.decisions ≡ some evaluated
unfolding is_selected resolve_options
backfill-others_example = backfill-others usual 2 ledger ((refl, tt), (tt, tt)) refl refl

backfill-total_example :
    (s : BackfillSummary) × ((backfill usual ledger).0 ≡ ok s)
    × (total s ≡ length (selected usual ledger.decisions))
backfill-total_example = backfill-total usual ledger refl

abbrev all_time : MetricsWindow
all_time = record { earliest = none; latest = none }

get_metrics-sums_example :
    let rows = select (in_metrics all_time) ledger.decisions in
    let cs = contributions first_number rows in
    (r : VetoMetricsReport) × ((get_metrics all_time ledger).0 ≡ ok r)
    × (r.net_value ≡ sum_from first_number zero_num cs)
    × (r.losses_avoided ≡ sum_from first_number zero_num (select (λ c. num_lt zero_num c) cs))
    × (r.profits_forgone ≡ sum_from first_number zero_num (select (λ c. num_lt c zero_num) cs))
    × (r.evaluated_count ≡ length cs)
    × (r.unsupported_action_count
        ≡ length (select (λ r. is_method unsupported_action r.cf_method) rows))
    × (r.insufficient_data_count
        ≡ length (select (λ r. is_method insufficient_data r.cf_method) rows))
get_metrics-sums_example = get_metrics-sums all_time ledger refl

get_plugin_value-counts_example :
    let vs = values (select (in_plugin_value all_time) ledger.decisions) in
    (r : PluginValueReport) × ((get_plugin_value all_time ledger).0 ≡ ok r)
    × (r.totals.evaluated_count ≡ length vs)
    × (r.totals.wins ≡ length (select (λ v. num_lt zero_num v) vs))
    × IsMean ledger.external.arithmetic r.totals
    × All (IsListed ledger.external.arithmetic) r.plugins
get_plugin_value-counts_example = get_plugin_value-counts all_time ledger refl
