-- ===== src/Veto/Attribution.antt =====
-- The counts of `getPluginValue` in veto-analyzer.service.ts.
use text.Mathlib.Text.{◌==◌ as str_eq}
use open_neotrader.Base.{
  ℕ, String, ◌+◌, ◌≤◌, ◌<◌, ◌≡◌, refl, Bool, true, Option, none, some, List, [], ◌∷◌, select,
  length, arith, map, All, if◌then◌else◌, Bool-cases, inl, inr, ◌⊎◌, ltb,
}
use open_neotrader.Number.{Number, zero_num, num_lt, num_of}
use open_neotrader.Exec.{ok, continue, ◌>>=◌, gets, pure}
use open_neotrader.Execution.Account.{Arithmetic}
use open_neotrader.Veto.State.{VetoDecisionRow, VetoLedger, find_decisions, store_call}
use open_neotrader.Veto.Report.{MetricsWindow, ByName, get_or, set_key}
use open_neotrader.Veto.Plugins.{
  PluginValueEntry, PluginValueReport, empty_entry, in_plugin_value, plugin_key, finalize_entry,
  counted_in, accumulate_under, accumulate_plugin_rows, insert_by_value, sort_by_value, total_of,
  plugin_report, get_plugin_value, unknown_plugin_key,
}

-- the values of the rows that have one
abbrev value_of : Option Number → List Number → List Number
value_of none rest = rest
value_of (some v) rest = v ∷ rest

abbrev pub values : List VetoDecisionRow → List Number
values [] = []
values (row ∷ rows) = value_of row.cf_pnl (values rows)

-- A count of an entry: how many it was given, each of which `test` may take or not.
record Counts (a : Arithmetic) (f : PluginValueEntry → ℕ) (test : Number → Bool) : Type 0 where
  of_empty : (k : String) → f (empty_entry k) ≡ 0
  of_counted :
      (v : Number) (e : PluginValueEntry) → f (counted_in a v e) ≡ f e + (if test v then 1 else 0)
  of_finalized : (e : PluginValueEntry) → f (finalize_entry a e) ≡ f e

abbrev sum_of : (PluginValueEntry → ℕ) → List PluginValueEntry → ℕ
sum_of f [] = 0
sum_of f (e ∷ es) = f e + sum_of f es

abbrev entries_of : ByName PluginValueEntry → List PluginValueEntry
entries_of m = map (λ e. e.1) m

module _ {a : Arithmetic} {f : PluginValueEntry → ℕ} {test : Number → Bool}
    (c : Counts a f test) where
  replaced :
      (k : String) (new : PluginValueEntry) (m : ByName PluginValueEntry)
      → sum_of f (entries_of (set_key k new m)) + f (get_or (empty_entry k) k m)
        ≡ sum_of f (entries_of m) + f new
  replaced k new [] = omega (arith, c.of_empty k)
  replaced k new ((j, e) ∷ m) = elim (Bool-cases (str_eq j k)) [
    | inl x ↦ rw x (omega arith)
    | inr x ↦ rw x (omega (arith, replaced k new m))
  ]

  one_more :
      (k : String) (v : Number) (m : ByName PluginValueEntry)
      → sum_of f (entries_of (set_key k (counted_in a v (get_or (empty_entry k) k m)) m))
        ≡ sum_of f (entries_of m) + (if test v then 1 else 0)
  one_more k v m =
      let e = get_or (empty_entry k) k m in
      omega (arith, replaced k (counted_in a v e) m, c.of_counted v e)

  under :
      (v : Option Number) (k : String) (m : ByName PluginValueEntry) (rest : List Number)
      → sum_of f (entries_of (accumulate_under a v k m)) + length (select test rest)
        ≡ sum_of f (entries_of m) + length (select test (value_of v rest))
  under none k m rest = refl
  under (some v) k m rest =
      let more = one_more k v m in
      elim (Bool-cases (test v)) [
        | inl x ↦ rw x (omega (arith, rw x at more))
        | inr x ↦ rw x (omega (arith, rw x at more))
      ]

  accumulated :
      (is_blank : String → Bool) (rows : List VetoDecisionRow) (m : ByName PluginValueEntry)
      → sum_of f (entries_of (accumulate_plugin_rows a is_blank rows m))
        ≡ sum_of f (entries_of m) + length (select test (values rows))
  unfolding accumulate_plugin_rows
  accumulated is_blank [] m = omega arith
  accumulated is_blank (row ∷ rows) m =
      let k = plugin_key is_blank row.source_plugin in
      omega (
        arith,
        accumulated is_blank rows (accumulate_under a row.cf_pnl k m),
        under row.cf_pnl k m (values rows),
      )

  finalized : (es : List PluginValueEntry) → sum_of f (map (finalize_entry a) es) ≡ sum_of f es
  finalized [] = refl
  finalized (e ∷ es) = omega (arith, c.of_finalized e, finalized es)

  inserted :
      (x : PluginValueEntry) (es : List PluginValueEntry)
      → sum_of f (insert_by_value a x es) ≡ f x + sum_of f es
  inserted x [] = refl
  inserted x (y ∷ ys) = elim (Bool-cases (num_lt zero_num (a.sub y.net_value x.net_value))) [
    | inl e ↦ rw e (omega (arith, inserted x ys))
    | inr e ↦ rw e refl
  ]

  sorted : (es : List PluginValueEntry) → sum_of f (sort_by_value a es) ≡ sum_of f es
  sorted [] = refl
  sorted (e ∷ es) = omega (arith, inserted e (sort_by_value a es), sorted es)

  counted_plugins :
      (is_blank : String → Bool) (rows : List VetoDecisionRow)
      → sum_of f (plugin_report a is_blank rows).plugins ≡ length (select test (values rows))
  unfolding plugin_report
  counted_plugins is_blank rows =
      let es = entries_of (accumulate_plugin_rows a is_blank rows []) in
      omega (arith, sorted (map (finalize_entry a) es), finalized es, accumulated is_blank rows [])

Counts-evaluated : (a : Arithmetic) → Counts a (λ e. e.evaluated_count) (λ v. true)
unfolding finalize_entry
Counts-evaluated a = record {
  of_empty = λ k. refl;
  of_counted = λ v e. omega arith;
  of_finalized = λ e. refl;
}

Counts-wins : (a : Arithmetic) → Counts a (λ e. e.wins) (λ v. num_lt zero_num v)
unfolding finalize_entry
Counts-wins a = record {
  of_empty = λ k. refl;
  of_counted = λ v e. ground arith;
  of_finalized = λ e. refl;
}

total_of-counts :
    (a : Arithmetic) (es : List PluginValueEntry) (t : PluginValueEntry)
    → ((total_of a es t).evaluated_count ≡ t.evaluated_count + sum_of (λ e. e.evaluated_count) es)
      × ((total_of a es t).wins ≡ t.wins + sum_of (λ e. e.wins) es)
total_of-counts a [] t = (omega arith, omega arith)
total_of-counts a (e ∷ es) t = omega (arith, total_of-counts a es _)

-- The rates of an entry: the shares of its count, or zero where it counts nothing.
abbrev pub IsMean : Arithmetic → PluginValueEntry → Type 0
IsMean a e =
    ((e.evaluated_count ≡ 0) × (e.win_rate ≡ zero_num) × (e.avg_cf_pnl ≡ zero_num))
    ⊎ ((0 < e.evaluated_count)
        × (e.win_rate ≡ a.div (num_of e.wins) (num_of e.evaluated_count))
        × (e.avg_cf_pnl ≡ a.div e.net_value (num_of e.evaluated_count)))

-- what is known of every entry while the rows are counted
abbrev IsRated : PluginValueEntry → Type 0
IsRated e = (0 < e.evaluated_count) × (e.wins ≤ e.evaluated_count)

-- what is known of every entry of the report
abbrev pub IsListed : Arithmetic → PluginValueEntry → Type 0
IsListed a e = (0 < e.evaluated_count) × (e.wins ≤ e.evaluated_count) × IsMean a e

module _ (a : Arithmetic) where
  counted_in-IsRated :
      (v : Number) (e : PluginValueEntry) → e.wins ≤ e.evaluated_count → IsRated (counted_in a v e)
  counted_in-IsRated v e h = ground (arith, h)

  get_or-wins :
      (k : String) (m : ByName PluginValueEntry)
      → All IsRated (entries_of m)
      → (get_or (empty_entry k) k m).wins ≤ (get_or (empty_entry k) k m).evaluated_count
  get_or-wins k [] h = omega arith
  get_or-wins k ((j, e) ∷ m) h = elim (Bool-cases (str_eq j k)) [
    | inl x ↦ rw x h.0.1
    | inr x ↦ rw x (get_or-wins k m h.1)
  ]

  All-set_key :
      (k : String) (new : PluginValueEntry) (m : ByName PluginValueEntry)
      → IsRated new
      → All IsRated (entries_of m)
      → All IsRated (entries_of (set_key k new m))
  All-set_key k new [] n h = (n, tt)
  All-set_key k new ((j, e) ∷ m) n h = elim (Bool-cases (str_eq j k)) [
    | inl x ↦ rw x (n, h.1)
    | inr x ↦ rw x (h.0, All-set_key k new m n h.1)
  ]

  All-under :
      (v : Option Number) (k : String) (m : ByName PluginValueEntry)
      → All IsRated (entries_of m)
      → All IsRated (entries_of (accumulate_under a v k m))
  All-under none k m h = h
  All-under (some v) k m h =
      All-set_key k (counted_in a v (get_or (empty_entry k) k m)) m
        (counted_in-IsRated v (get_or (empty_entry k) k m) (get_or-wins k m h)) h

  All-rows :
      (is_blank : String → Bool) (rows : List VetoDecisionRow) (m : ByName PluginValueEntry)
      → All IsRated (entries_of m)
      → All IsRated (entries_of (accumulate_plugin_rows a is_blank rows m))
  unfolding accumulate_plugin_rows
  All-rows is_blank [] m h = h
  All-rows is_blank (row ∷ rows) m h =
      All-rows is_blank rows _ (All-under row.cf_pnl (plugin_key is_blank row.source_plugin) m h)

  finalize_entry-IsMean : (e : PluginValueEntry) → IsMean a (finalize_entry a e)
  unfolding finalize_entry
  finalize_entry-IsMean e = elim (Bool-cases (ltb 0 e.evaluated_count)) [
    | inl counted ↦ inr (rw counted (ground (arith, counted), refl, refl))
    | inr nothing ↦ inl (rw nothing (ground (arith, nothing), refl, refl))
  ]

  finalize_entry-IsListed : (e : PluginValueEntry) → IsRated e → IsListed a (finalize_entry a e)
  finalize_entry-IsListed e h =
      let counts : (finalize_entry a e).evaluated_count ≡ e.evaluated_count =
        (Counts-evaluated a).of_finalized e in
      let wins : (finalize_entry a e).wins ≡ e.wins = (Counts-wins a).of_finalized e in
      (rw counts h.0, rw (counts, wins) h.1, finalize_entry-IsMean e)

  All-finalized :
      (es : List PluginValueEntry) → All IsRated es → All (IsListed a) (map (finalize_entry a) es)
  All-finalized [] h = tt
  All-finalized (e ∷ es) h = (finalize_entry-IsListed e h.0, All-finalized es h.1)

  All-inserted :
      (x : PluginValueEntry) (es : List PluginValueEntry)
      → IsListed a x
      → All (IsListed a) es
      → All (IsListed a) (insert_by_value a x es)
  All-inserted x [] n h = (n, tt)
  All-inserted x (y ∷ ys) n h =
      elim (Bool-cases (num_lt zero_num (a.sub y.net_value x.net_value))) [
        | inl e ↦ rw e (h.0, All-inserted x ys n h.1)
        | inr e ↦ rw e (n, h)
      ]

  All-sorted :
      (es : List PluginValueEntry) → All (IsListed a) es → All (IsListed a) (sort_by_value a es)
  All-sorted [] h = tt
  All-sorted (e ∷ es) h = All-inserted e (sort_by_value a es) h.0 (All-sorted es h.1)

  plugins-IsListed :
      (is_blank : String → Bool) (rows : List VetoDecisionRow)
      → All (IsListed a) (plugin_report a is_blank rows).plugins
  unfolding plugin_report
  plugins-IsListed is_blank rows = All-sorted _ (All-finalized _ (All-rows is_blank rows [] tt))

  totals-IsMean :
      (is_blank : String → Bool) (rows : List VetoDecisionRow)
      → IsMean a (plugin_report a is_blank rows).totals
  unfolding plugin_report
  totals-IsMean is_blank rows = finalize_entry-IsMean _

  totals_count :
      (is_blank : String → Bool) (rows : List VetoDecisionRow)
      → let report = plugin_report a is_blank rows in
        (report.totals.evaluated_count ≡ length (select (λ v. true) (values rows)))
        × (report.totals.wins ≡ length (select (λ v. num_lt zero_num v) (values rows)))
  unfolding plugin_report finalize_entry
  totals_count is_blank rows =
      let plugins = (plugin_report a is_blank rows).plugins in
      let sums = total_of-counts a plugins (empty_entry unknown_plugin_key) in
      (
        omega (arith, sums, counted_plugins (Counts-evaluated a) is_blank rows),
        omega (arith, sums, counted_plugins (Counts-wins a) is_blank rows),
      )

all_values : (vs : List Number) → length (select (λ v. true) vs) ≡ length vs
all_values [] = refl
all_values (v ∷ vs) = omega (arith, all_values vs)

-- No value is lost or counted twice, and no rate divides by zero: where the rows can be read,
-- `getPluginValue` returns a report in which `totals`, summed over the plugins, counts each row of the
-- window with a real evaluation and a value once, and each positive value as one win; every plugin
-- listed has at least one evaluated row and no more wins than rows; and the rates of the totals and of
-- every plugin listed are its wins and its net value divided by its positive count, or zero where nothing
-- is counted.
pub get_plugin_value-counts :
    (window : MetricsWindow) (w : VetoLedger)
    → w.external.store_works w.calls_made ≡ true
    → let vs = values (select (in_plugin_value window) w.decisions) in
      (r : PluginValueReport) × ((get_plugin_value window w).0 ≡ ok r)
      × (r.totals.evaluated_count ≡ length vs)
      × (r.totals.wins ≡ length (select (λ v. num_lt zero_num v) vs))
      × IsMean w.external.arithmetic r.totals
      × All (IsListed w.external.arithmetic) r.plugins
unfolding get_plugin_value find_decisions store_call continue gets pure ◌>>=◌
get_plugin_value-counts window w works =
    let e = w.external in
    let rows = select (in_plugin_value window) w.decisions in
    let counts = totals_count e.arithmetic e.is_blank rows in
    rw works (
      plugin_report e.arithmetic e.is_blank rows,
      refl,
      omega (arith, counts, all_values (values rows)),
      counts.1,
      totals-IsMean e.arithmetic e.is_blank rows,
      plugins-IsListed e.arithmetic e.is_blank rows,
    )
