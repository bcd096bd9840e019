-- ===== src/Veto/Sums.antt =====
-- The report of `getMetrics` in veto-analyzer.service.ts against plain sums and counts.
use open_neotrader.Base.{
  ℕ, ◌+◌, ◌≡◌, refl, Bool, true, false, Option, none, some, List, [], ◌∷◌, select, length, arith,
  if◌then◌else◌, Bool-cases, inl, inr,
}
use open_neotrader.Number.{Number, zero_num, num_lt}
use open_neotrader.Exec.{ok, continue, ◌>>=◌, gets, pure}
use open_neotrader.Execution.Account.{Arithmetic}
use open_neotrader.Veto.State.{
  CfMethod, unsupported_action, insufficient_data, invalid_ref_price, fixed_horizon,
  VetoDecisionRow, VetoLedger, find_decisions, store_call,
}
use open_neotrader.Veto.Report.{
  MetricsWindow, VetoMetricsReport, empty_report, in_metrics, contribution_for, add_contribution,
  accumulate_value, accumulate_by, accumulate_row, accumulate_rows, get_metrics, count_verdict,
}

abbrev pub is_method : CfMethod → Option CfMethod → Bool
is_method unsupported_action (some unsupported_action) = true
is_method insufficient_data (some insufficient_data) = true
is_method _ _ = false

-- the left-to-right sum of the rounding additions
abbrev pub sum_from : Arithmetic → Number → List Number → Number
sum_from a total [] = total
sum_from a total (x ∷ xs) = sum_from a (a.add total x) xs

module _ (a : Arithmetic) where
  abbrev contribution_of : Option Number → VetoDecisionRow → List Number → List Number
  contribution_of none row rest = rest
  contribution_of (some cf_pnl) row rest = contribution_for a row cf_pnl ∷ rest

  abbrev contribution_by : Option CfMethod → VetoDecisionRow → List Number → List Number
  contribution_by (some unsupported_action) row rest = rest
  contribution_by (some insufficient_data) row rest = rest
  contribution_by _ row rest = contribution_of row.cf_pnl row rest

  -- the contributions of the rows that were evaluated
  abbrev pub contributions : List VetoDecisionRow → List Number
  contributions [] = []
  contributions (row ∷ rows) = contribution_by row.cf_method row (contributions rows)

  -- what the sums of a report become
  abbrev SumsTo : VetoMetricsReport → List Number → VetoMetricsReport → Type 0
  SumsTo before cs after =
      (after.net_value ≡ sum_from a before.net_value cs)
      × (after.losses_avoided
          ≡ sum_from a before.losses_avoided (select (λ c. num_lt zero_num c) cs))
      × (after.profits_forgone
          ≡ sum_from a before.profits_forgone (select (λ c. num_lt c zero_num) cs))
      × (after.evaluated_count ≡ before.evaluated_count + length cs)

  added :
      (row : VetoDecisionRow) (c : Number) (before after : VetoMetricsReport) (cs : List Number)
      → SumsTo (add_contribution a row c before) cs after
      → SumsTo before (c ∷ cs) after
  unfolding add_contribution
  added row c before after cs (net, losses, profits, count) = (
    net,
    elim (Bool-cases (num_lt zero_num c)) [
      | inl e ↦ rw e (rw e at losses)
      | inr e ↦ rw e (rw e at losses)
    ],
    elim (Bool-cases (num_lt c zero_num)) [
      | inl e ↦ rw e (rw e at profits)
      | inr e ↦ rw e (rw e at profits)
    ],
    omega (arith, count),
  )

  by_value :
      (v : Option Number) (row : VetoDecisionRow) (before after : VetoMetricsReport)
      (cs : List Number)
      → SumsTo (accumulate_value a v row before) cs after
      → SumsTo before (contribution_of v row cs) after
  by_value none row before after cs h = h
  by_value (some p) row before after cs h = added row (contribution_for a row p) before after cs h

  by_method :
      (m : Option CfMethod) (row : VetoDecisionRow) (before after : VetoMetricsReport)
      (cs : List Number)
      → SumsTo (accumulate_by a m row before) cs after
      → SumsTo before (contribution_by m row cs) after
  by_method none row before after cs h = by_value row.cf_pnl row before after cs h
  by_method (some unsupported_action) row before after cs h = h
  by_method (some insufficient_data) row before after cs h = h
  by_method (some invalid_ref_price) row before after cs h =
      by_value row.cf_pnl row before after cs h
  by_method (some (fixed_horizon n t c)) row before after cs h =
      by_value row.cf_pnl row before after cs h

  accumulate_rows-SumsTo :
      (rows : List VetoDecisionRow) (report : VetoMetricsReport)
      → SumsTo report (contributions rows) (accumulate_rows a rows report)
  unfolding accumulate_rows accumulate_row
  accumulate_rows-SumsTo [] report = (refl, refl, refl, omega arith)
  accumulate_rows-SumsTo (row ∷ rows) report =
      by_method row.cf_method row
        (record report { counts_by_verdict = count_verdict row.verdict report.counts_by_verdict })
        (accumulate_rows a rows (accumulate_row a row report)) (contributions rows)
        (accumulate_rows-SumsTo rows (accumulate_row a row report))

  counted_by :
      (v : Option Number) (row : VetoDecisionRow) (report : VetoMetricsReport)
      → ((accumulate_value a v row report).unsupported_action_count
          ≡ report.unsupported_action_count)
        × ((accumulate_value a v row report).insufficient_data_count
            ≡ report.insufficient_data_count)
  unfolding add_contribution
  counted_by none row report = (refl, refl)
  counted_by (some p) row report = (refl, refl)

  abbrev one_if : Bool → ℕ
  one_if b = if b then 1 else 0

  marked :
      (m : Option CfMethod) (row : VetoDecisionRow) (report : VetoMetricsReport)
      → ((accumulate_by a m row report).unsupported_action_count
          ≡ report.unsupported_action_count + one_if (is_method unsupported_action m))
        × ((accumulate_by a m row report).insufficient_data_count
            ≡ report.insufficient_data_count + one_if (is_method insufficient_data m))
  marked none row report = omega (arith, counted_by row.cf_pnl row report)
  marked (some unsupported_action) row report = (omega arith, omega arith)
  marked (some insufficient_data) row report = (omega arith, omega arith)
  marked (some invalid_ref_price) row report = omega (arith, counted_by row.cf_pnl row report)
  marked (some (fixed_horizon n t c)) row report = omega (arith, counted_by row.cf_pnl row report)

  accumulate_rows-marked :
      (rows : List VetoDecisionRow) (report : VetoMetricsReport)
      → ((accumulate_rows a rows report).unsupported_action_count
          ≡ report.unsupported_action_count
            + length (select (λ r. is_method unsupported_action r.cf_method) rows))
        × ((accumulate_rows a rows report).insufficient_data_count
            ≡ report.insufficient_data_count
              + length (select (λ r. is_method insufficient_data r.cf_method) rows))
  unfolding accumulate_rows accumulate_row
  accumulate_rows-marked [] report = (omega arith, omega arith)
  accumulate_rows-marked (row ∷ rows) report =
      let before = record report {
        counts_by_verdict = count_verdict row.verdict report.counts_by_verdict;
      } in
      ground (
        arith,
        accumulate_rows-marked rows (accumulate_row a row report),
        marked row.cf_method row before,
      )

-- The report of the vetoes is what its parts say: where the rows can be read, the rows counted are the
-- ones of the window that have a method. With the contributions of those that have a value, in the order
-- of the rows, `net_value` is their sum, `losses_avoided` the sum of the positive ones and
-- `profits_forgone` that of the negative ones, each added up from zero; `evaluated_count` is their number,
-- and the two other counts are the numbers of rows with these methods.
pub get_metrics-sums :
    (window : MetricsWindow) (w : VetoLedger)
    → w.external.store_works w.calls_made ≡ true
    → let a = w.external.arithmetic in
      let rows = select (in_metrics window) w.decisions in
      let cs = contributions a rows in
      (r : VetoMetricsReport) × ((get_metrics window w).0 ≡ ok r)
      × (r.net_value ≡ sum_from a zero_num cs)
      × (r.losses_avoided ≡ sum_from a zero_num (select (λ c. num_lt zero_num c) cs))
      × (r.profits_forgone ≡ sum_from a zero_num (select (λ c. num_lt c zero_num) cs))
      × (r.evaluated_count ≡ length cs)
      × (r.unsupported_action_count
          ≡ length (select (λ r. is_method unsupported_action r.cf_method) rows))
      × (r.insufficient_data_count
          ≡ length (select (λ r. is_method insufficient_data r.cf_method) rows))
unfolding get_metrics find_decisions store_call continue gets pure ◌>>=◌
get_metrics-sums window w works =
    let a = w.external.arithmetic in
    let rows = select (in_metrics window) w.decisions in
    let (net, losses, profits, count) = accumulate_rows-SumsTo a rows empty_report in
    let (unsupported, insufficient) = accumulate_rows-marked a rows empty_report in
    rw works (
      accumulate_rows a rows empty_report,
      refl,
      net,
      losses,
      profits,
      omega (arith, count),
      omega (arith, unsupported),
      omega (arith, insufficient),
    )
