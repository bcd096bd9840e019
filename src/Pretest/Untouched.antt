-- ===== src/Pretest/Untouched.antt =====
-- What a cycle of pretest.service.ts does before it stores its state: the portfolios stay as they are.
use open_neotrader.Base.{ℕ, String, Option, none, some, List, [], ◌∷◌, All}
use open_neotrader.Number.{Number}
use open_neotrader.Exec.{Result, ok, err}
use open_neotrader.Exec.Keeps.{Keeps, keeps_rules, Keeps-bind, Keeps-pure, Keeps-on_option}
use open_neotrader.Execution.Account.{Arithmetic, RiskPolicy}
use open_neotrader.Store.Rows.{Refusal}
use open_neotrader.Pretest.State.{
  PretestAction, PretestPosition, PretestState, PretestExternal, Pretests, store_call, ask, read_kv,
}
use open_neotrader.Pretest.Fill.{ToolCall, PretestPolicy, fill_proposed, proposal, simulate_fills}
use open_neotrader.Pretest.Rebalance.{fresh_marks, build_vol_target_rebalance_trades}
use open_neotrader.Pretest.Marks.{mark_all, update_equity_metrics}
use open_neotrader.Pretest.Floor.{
  read_risk_policy, floor_by, floor_calls, floor_entry, after_gate, reserve, reject, entry_of,
  apply_kernel_risk_floor,
}
use open_neotrader.Pretest.Counting.{IsBook}
use open_neotrader.Pretest.Cycle.{CycleTurn, cycle_trades}

-- Every stored portfolio is sound.
abbrev pub AreBooks : Pretests → Type 0
AreBooks w = All (λ p. IsBook p.state) w.portfolios

pub Keeps-ask : {A : Type 0} (f : PretestExternal → ℕ → A) → Keeps (AreBooks) (ask f)
unfolding ask
Keeps-ask f = record { at = λ w h. h }

pub Keeps-store_call : Keeps (AreBooks) store_call
unfolding store_call
Keeps-store_call = record { at = λ w h. h }

pub ruleset outside_rules = (keeps_rules, Keeps-ask, Keeps-store_call)

Keeps-read_kv : (k : String) → Keeps (AreBooks) (read_kv k)
unfolding read_kv
Keeps-read_kv k = search (outside_rules) depth 8

Keeps-read_risk_policy : Keeps (AreBooks) read_risk_policy
unfolding read_risk_policy
Keeps-read_risk_policy = search (outside_rules, Keeps-read_kv) depth 30

Keeps-reject : (s : PretestState) (r : List ℕ) → Keeps (AreBooks) (reject s r)
unfolding reject
Keeps-reject s r = search (outside_rules) depth 8

Keeps-after_gate :
    (refusal : Option Refusal) (policy : RiskPolicy) (symbol : ℕ) (s : PretestState) (r : List ℕ)
    → Keeps (AreBooks) (after_gate refusal policy symbol s r)
unfolding reserve
Keeps-after_gate none policy symbol s r = search (outside_rules, Keeps-reject) depth 8
Keeps-after_gate (some x) policy symbol s r = Keeps-reject s r

Keeps-floor_by :
    (entry : Result (Option ℕ)) (policy : RiskPolicy) (s : PretestState) (r : List ℕ)
    → Keeps (AreBooks) (floor_by entry policy s r)
unfolding floor_entry
Keeps-floor_by (err e) policy s r = search (outside_rules) depth 8
Keeps-floor_by (ok none) policy s r = search (outside_rules) depth 8
Keeps-floor_by (ok (some symbol)) policy s r = search (outside_rules, Keeps-after_gate) depth 12

Keeps-floor_calls :
    (policy : RiskPolicy) (tcs : List ToolCall) (s : PretestState) (r : List ℕ)
    → Keeps (AreBooks) (floor_calls policy tcs s r)
unfolding floor_calls
Keeps-floor_calls policy [] s r = Keeps-pure _
Keeps-floor_calls policy (tc ∷ tcs) s r =
    Keeps-bind _ _ (Keeps-floor_by (entry_of tc) policy s r) (λ step.
      Keeps-bind _ _ (Keeps-floor_calls policy tcs step.state step.reserved) (λ rest. Keeps-pure _))

module _ (a : Arithmetic) (policy : PretestPolicy) (closes : ℕ → Number) where
  Keeps-fill_proposed :
      (r : Result (Option (ℕ × PretestAction))) (s : PretestState)
      → Keeps (AreBooks) (fill_proposed a r s policy closes)
  Keeps-fill_proposed (err e) s = search (outside_rules) depth 8
  Keeps-fill_proposed (ok none) s = search (outside_rules) depth 8
  Keeps-fill_proposed (ok (some (symbol, action))) s = search (outside_rules) depth 12

  Keeps-simulate_fills :
      (tcs : List ToolCall) (s : PretestState)
      → Keeps (AreBooks) (simulate_fills a tcs s policy closes)
  unfolding simulate_fills
  Keeps-simulate_fills [] s = Keeps-pure _
  Keeps-simulate_fills (tc ∷ tcs) s =
      Keeps-bind _ _ (Keeps-fill_proposed (proposal tc s) s)
        (λ t. Keeps-bind _ _ (Keeps-simulate_fills tcs s) (λ rest. Keeps-pure _))

  Keeps-fresh_marks : (ps : List PretestPosition) → Keeps (AreBooks) (fresh_marks a ps closes)
  unfolding fresh_marks
  Keeps-fresh_marks [] = Keeps-pure _
  Keeps-fresh_marks (p ∷ ps) =
      Keeps-bind _ _ (Keeps-ask _)
        (λ quote. Keeps-bind _ _ (Keeps-fresh_marks ps) (λ rest. Keeps-pure _))

  Keeps-mark_all : (ps : List PretestPosition) → Keeps (AreBooks) (mark_all a ps closes)
  unfolding mark_all
  Keeps-mark_all [] = Keeps-pure _
  Keeps-mark_all (p ∷ ps) =
      Keeps-bind _ _ (Keeps-ask _)
        (λ quote. Keeps-bind _ _ (Keeps-mark_all ps) (λ rest. Keeps-pure _))

  Keeps-rebalances :
      (s : PretestState) (x : Number)
      → Keeps AreBooks (build_vol_target_rebalance_trades a s x closes)
  unfolding build_vol_target_rebalance_trades
  Keeps-rebalances s x = search (outside_rules, Keeps-fresh_marks) depth 20

  pub Keeps-metrics :
      (symbol : ℕ) (s : PretestState)
      → Keeps AreBooks (update_equity_metrics a symbol s policy closes)
  unfolding update_equity_metrics
  Keeps-metrics symbol s = Keeps-bind _ _ (Keeps-mark_all s.positions) (λ ms.
      Keeps-bind _ _ (Keeps-ask _)
        (λ arrived. Keeps-bind _ _ (Keeps-ask _) (λ bench. Keeps-pure _)))

pub Keeps-floor :
    (tcs : List ToolCall) (s : PretestState) → Keeps AreBooks (apply_kernel_risk_floor tcs s)
unfolding apply_kernel_risk_floor
Keeps-floor tcs s =
    Keeps-bind _ _ Keeps-read_risk_policy (λ policy. Keeps-floor_calls policy tcs s [])

pub Keeps-cycle_trades :
    (a : Arithmetic) (turn : CycleTurn) (policy : PretestPolicy) (tcs : List ToolCall)
    (s : PretestState)
    → Keeps AreBooks (cycle_trades a turn policy tcs s)
unfolding cycle_trades
Keeps-cycle_trades a turn policy tcs s =
    Keeps-bind _ _ (Keeps-simulate_fills a policy turn.reference_closes tcs s) (λ trades.
      Keeps-bind _ _
        (Keeps-on_option turn.exposure_scalar _ _
          (λ x. Keeps-rebalances a policy turn.reference_closes s x) (Keeps-pure _))
        (λ rebalance. Keeps-pure _))
