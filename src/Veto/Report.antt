-- ===== src/Veto/Report.antt =====
-- The reports of veto-analyzer.service.ts: `getMetrics`, what the vetoes were worth, and
-- `getPluginValue`, what each plugin's signals were worth.
use text.Mathlib.Text.{◌==◌ as str_eq}
use open_neotrader.Base.{
  ℕ, zero, suc, String, Bool, true, false, ◌&&◌, Option, none, some, List, [], ◌∷◌, leb, or_default,
  if◌then◌else◌,
}
use open_neotrader.Number.{Number, finite, pos, zero_num, num_lt, num_neg}
use open_neotrader.Exec.{pure, gets, ◌>>=◌}
use open_neotrader.Execution.Account.{Arithmetic}
use open_neotrader.Veto.State.{CfMethod, VetoDecisionRow, Work, find_decisions}

-- `MetricsWindow`
pub record MetricsWindow : Type 0 where
  pub earliest : Option ℕ
  pub latest : Option ℕ

-- the counts by verdict
pub record VerdictCounts : Type 0 where
  pub approved : ℕ
  pub blocked : ℕ
  pub modified : ℕ

-- a record by text: discipline or plugin
abbrev pub ByName : Type 0 → Type 0
ByName A = List (String × A)

-- `VetoMetricsReport`
pub record VetoMetricsReport : Type 0 where
  pub net_value : Number
  pub counts_by_verdict : VerdictCounts
  pub evaluated_count : ℕ
  pub unsupported_action_count : ℕ
  pub insufficient_data_count : ℕ
  pub losses_avoided : Number
  pub profits_forgone : Number
  pub by_discipline : ByName Number

-- the report before the first row
abbrev pub empty_report : VetoMetricsReport
empty_report = record {
  net_value = zero_num;
  counts_by_verdict = record { approved = 0; blocked = 0; modified = 0 };
  evaluated_count = 0;
  unsupported_action_count = 0;
  insufficient_data_count = 0;
  losses_avoided = zero_num;
  profits_forgone = zero_num;
  by_discipline = [];
}

abbrev is_from : Option ℕ → ℕ → Bool
is_from none ts = true
is_from (some t) ts = leb t ts

abbrev is_until : Option ℕ → ℕ → Bool
is_until none ts = true
is_until (some t) ts = leb ts t

abbrev pub is_within : MetricsWindow → ℕ → Bool
is_within window ts = is_from window.earliest ts && is_until window.latest ts

abbrev pub has_method : Option CfMethod → Bool
has_method none = false
has_method (some _) = true

-- `_buildMetricsWhere`
unfoldable pub in_metrics : MetricsWindow → VetoDecisionRow → Bool
in_metrics window row = has_method row.cf_method && is_within window row.ts

-- `n === 0`
abbrev pub is_zero : Number → Bool
is_zero (finite (pos zero)) = true
is_zero _ = false

-- `map.get(key) ?? fallback`
abbrev pub get_or {ℓ} : {A : Type ℓ} → A → String → List (String × A) → A
get_or fallback k [] = fallback
get_or fallback k ((j, v) ∷ m) = if str_eq j k then v else get_or fallback k m

-- `map.set(key, value)`, where a new key comes last
abbrev pub set_key {ℓ} : {A : Type ℓ} → String → A → List (String × A) → List (String × A)
set_key k v [] = (k, v) ∷ []
set_key k v ((j, w) ∷ m) =
    let rest = set_key k v m in if str_eq j k then (j, v) ∷ m else (j, w) ∷ rest

-- `report.counts_by_verdict[row.verdict] += 1` for the verdicts that it counts
abbrev pub count_verdict : String → VerdictCounts → VerdictCounts
count_verdict verdict c =
    if str_eq verdict "approved"
    then record c { approved = suc c.approved }
    else if str_eq verdict "blocked"
    then record c { blocked = suc c.blocked }
    else if str_eq verdict "modified"
    then record c { modified = suc c.modified }
    else c

-- the key of a discipline, which an empty text is not
abbrev pub discipline_key : Option String → Option String
discipline_key none = none
discipline_key (some d) = if str_eq d "" then none else some d

module _ (a : Arithmetic) where
  -- `_contributionFor` of a decision that was modified
  unfoldable pub modified_contribution : VetoDecisionRow → Number → Number
  modified_contribution row cf_pnl =
      let ref_price = or_default row.ref_price zero_num in
      let denominator = a.mul row.proposed_qty ref_price in
      let executed =
        a.mul (a.mul (a.div cf_pnl denominator) ref_price) (or_default row.approved_qty zero_num) in
      if is_zero denominator then zero_num else a.sub executed cf_pnl

  -- `_contributionFor`
  unfoldable pub contribution_for : VetoDecisionRow → Number → Number
  contribution_for row cf_pnl =
      if str_eq row.verdict "blocked"
      then num_neg cf_pnl
      else if str_eq row.verdict "approved"
      then zero_num
      else if str_eq row.verdict "modified"
      then modified_contribution row cf_pnl
      else zero_num

  abbrev pub add_discipline : Option String → Number → ByName Number → ByName Number
  add_discipline none contribution m = m
  add_discipline (some d) contribution m = set_key d (a.add (get_or zero_num d m) contribution) m

  -- what an evaluated row adds to the report
  unfoldable pub add_contribution : VetoDecisionRow → Number → VetoMetricsReport → VetoMetricsReport
  add_contribution row contribution report = record report {
    evaluated_count = suc report.evaluated_count;
    net_value = a.add report.net_value contribution;
    losses_avoided =
        if num_lt zero_num contribution
        then a.add report.losses_avoided contribution
        else report.losses_avoided;
    profits_forgone =
        if num_lt contribution zero_num
        then a.add report.profits_forgone contribution
        else report.profits_forgone;
    by_discipline =
        add_discipline (discipline_key row.discipline) contribution report.by_discipline;
  }

  abbrev pub accumulate_value :
      Option Number → VetoDecisionRow → VetoMetricsReport → VetoMetricsReport
  accumulate_value none row report = report
  accumulate_value (some cf_pnl) row report =
      add_contribution row (contribution_for row cf_pnl) report

  abbrev pub accumulate_by :
      Option CfMethod → VetoDecisionRow → VetoMetricsReport → VetoMetricsReport
  accumulate_by (some CfMethod.unsupported_action) row report = record report {
    unsupported_action_count = suc report.unsupported_action_count;
  }
  accumulate_by (some CfMethod.insufficient_data) row report = record report {
    insufficient_data_count = suc report.insufficient_data_count;
  }
  accumulate_by _ row report = accumulate_value row.cf_pnl row report

  -- `_accumulateRow`
  unfoldable pub accumulate_row : VetoDecisionRow → VetoMetricsReport → VetoMetricsReport
  accumulate_row row report =
      accumulate_by row.cf_method row
        (record report { counts_by_verdict = count_verdict row.verdict report.counts_by_verdict })

  -- the loop of `getMetrics`
  unfoldable pub accumulate_rows : List VetoDecisionRow → VetoMetricsReport → VetoMetricsReport
  accumulate_rows [] report = report
  accumulate_rows (row ∷ rows) report = accumulate_rows rows (accumulate_row row report)

-- `getMetrics`
unfoldable pub get_metrics : MetricsWindow → Work VetoMetricsReport
get_metrics window = do
  rows ← find_decisions (in_metrics window)
  a ← gets (λ w. w.external.arithmetic)
  pure (accumulate_rows a rows empty_report)
