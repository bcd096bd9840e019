-- ===== src/Veto/Plugins.antt =====
-- `getPluginValue` of veto-analyzer.service.ts: what each plugin's signals were worth, whatever was
-- decided about them.
use text.Mathlib.Text.{◌==◌ as str_eq}
use open_neotrader.Base.{
  ℕ, suc, ◌+◌, String, Bool, true, false, not, ◌&&◌, Option, none, some, List, [], ◌∷◌, ltb, map,
  if◌then◌else◌,
}
use open_neotrader.Number.{Number, zero_num, num_of, num_lt}
use open_neotrader.Exec.{pure, gets, ◌>>=◌}
use open_neotrader.Execution.Account.{Arithmetic}
use open_neotrader.Veto.State.{CfMethod, fixed_horizon, VetoDecisionRow, Work, find_decisions}
use open_neotrader.Veto.Report.{MetricsWindow, ByName, is_within, get_or, set_key}

-- `PluginValueEntry`
pub record PluginValueEntry : Type 0 where
  pub source_plugin : String
  pub evaluated_count : ℕ
  pub net_value : Number
  pub wins : ℕ
  pub win_rate : Number
  pub avg_cf_pnl : Number

-- `PluginValueReport`
pub record PluginValueReport : Type 0 where
  pub plugins : List PluginValueEntry
  pub totals : PluginValueEntry

abbrev pub unknown_plugin_key : String
unknown_plugin_key = "unknown"

-- `emptyPluginValueEntry`
abbrev pub empty_entry : String → PluginValueEntry
empty_entry plugin = record {
  source_plugin = plugin;
  evaluated_count = 0;
  net_value = zero_num;
  wins = 0;
  win_rate = zero_num;
  avg_cf_pnl = zero_num;
}

-- a method that is not one of `TERMINAL_NON_EVALUATED_METHODS`
abbrev pub is_evaluation : Option CfMethod → Bool
is_evaluation (some (fixed_horizon _ _ _)) = true
is_evaluation _ = false

-- `_buildPluginValueWhere`
unfoldable pub in_plugin_value : MetricsWindow → VetoDecisionRow → Bool
in_plugin_value window row = is_evaluation row.cf_method && is_within window row.ts

-- the key under which a row is counted
unfoldable pub plugin_key : (String → Bool) → String → String
plugin_key is_blank plugin =
    if not (str_eq plugin "") && not (is_blank plugin) then plugin else unknown_plugin_key

module _ (a : Arithmetic) where
  -- `finalizePluginValueEntry`
  unfoldable pub finalize_entry : PluginValueEntry → PluginValueEntry
  finalize_entry entry =
      let count = num_of entry.evaluated_count in
      let counted = ltb 0 entry.evaluated_count in
      record entry {
        win_rate = if counted then a.div (num_of entry.wins) count else zero_num;
        avg_cf_pnl = if counted then a.div entry.net_value count else zero_num;
      }

  abbrev pub counted_in : Number → PluginValueEntry → PluginValueEntry
  counted_in cf_pnl entry = record entry {
    evaluated_count = suc entry.evaluated_count;
    net_value = a.add entry.net_value cf_pnl;
    wins = if num_lt zero_num cf_pnl then suc entry.wins else entry.wins;
  }

  abbrev pub accumulate_under :
      Option Number → String → ByName PluginValueEntry → ByName PluginValueEntry
  accumulate_under none key m = m
  accumulate_under (some cf_pnl) key m =
      set_key key (counted_in cf_pnl (get_or (empty_entry key) key m)) m

  -- the loop of `getPluginValue` over `_accumulatePluginRow`
  unfoldable pub accumulate_plugin_rows :
      (String → Bool) → List VetoDecisionRow → ByName PluginValueEntry → ByName PluginValueEntry
  accumulate_plugin_rows is_blank [] m = m
  accumulate_plugin_rows is_blank (row ∷ rows) m =
      accumulate_plugin_rows is_blank rows
        (accumulate_under row.cf_pnl (plugin_key is_blank row.source_plugin) m)

  -- `(a, b) => b.net_value - a.net_value` where it puts `b` first
  abbrev comes_first : PluginValueEntry → PluginValueEntry → Bool
  comes_first b entry = num_lt zero_num (a.sub b.net_value entry.net_value)

  abbrev pub insert_by_value : PluginValueEntry → List PluginValueEntry → List PluginValueEntry
  insert_by_value x [] = x ∷ []
  insert_by_value x (y ∷ ys) =
      let rest = insert_by_value x ys in if comes_first y x then y ∷ rest else x ∷ y ∷ ys

  -- `plugins.sort`, which is stable
  abbrev pub sort_by_value : List PluginValueEntry → List PluginValueEntry
  sort_by_value [] = []
  sort_by_value (x ∷ xs) = insert_by_value x (sort_by_value xs)

  abbrev pub total_of : List PluginValueEntry → PluginValueEntry → PluginValueEntry
  total_of [] totals = totals
  total_of (entry ∷ entries) totals = total_of entries (record totals {
    evaluated_count = totals.evaluated_count + entry.evaluated_count;
    net_value = a.add totals.net_value entry.net_value;
    wins = totals.wins + entry.wins;
  })

  -- `getPluginValue` after its rows are read
  unfoldable pub plugin_report : (String → Bool) → List VetoDecisionRow → PluginValueReport
  plugin_report is_blank rows =
      let entries = map (λ e. e.1) (accumulate_plugin_rows is_blank rows []) in
      let plugins = sort_by_value (map finalize_entry entries) in
      record {
        plugins = plugins;
        totals = finalize_entry (total_of plugins (empty_entry unknown_plugin_key));
      }

-- `getPluginValue`
unfoldable pub get_plugin_value : MetricsWindow → Work PluginValueReport
get_plugin_value window = do
  rows ← find_decisions (in_plugin_value window)
  e ← gets (λ w. w.external)
  pure (plugin_report e.arithmetic e.is_blank rows)
