-- ===== src/TradeIntent/Keeps.antt =====
-- What the parts of the trade intent service keep: all but the submission of an order and the writes
-- of the policy keep what `Stable` lists.
use open_neotrader.Base.{refl, ℕ, String}
use open_neotrader.Number.{Number}
use open_neotrader.Exec.Keeps.{Keeps, keeps_rules, Keeps-bind, Keeps-pure}
use open_neotrader.Execution.Account.{Account}
use open_neotrader.Store.Rows.{
  TradeAction, exit, hold, short, long, TradeIntent, Outcome, NavSnapshot, Strategy, Refusal,
}
use open_neotrader.Store.World.{World}
use open_neotrader.Store.Calls.Footprint.{
  Stable, Keeps-now, Keeps-read_db, Keeps-kv_read, Keeps-get_portfolio, Keeps-change_intent,
  Keeps-write_audit, Keeps-get_quote, Keeps-write_paper,
}
use open_neotrader.TradeIntent.Policy.{ExecutionPolicy, read_raw_policy, read_execution_policy}
use open_neotrader.TradeIntent.Mode.{
  decide, fail, stop_failed, read_walk_forward_max_age_days, check_freshness, check_verdict,
  check_strategy, check_walk_forward_gate, demoted, opening_mode, effective_mode,
  resolve_exit_routing, resolve_effective, resolve_mode,
}
use open_neotrader.TradeIntent.Real.{
  read_real_state_max_age_ms, account_if_fresh, get_real_account_state, record_no_change,
}
use open_neotrader.TradeIntent.Process.{
  load_paper, read_market, evaluate_paper_gate, reject_by_gate, record_fill, fill_on_paper,
  run_paper_execution, find_pending, reject,
}

module _ {P : World → Type 0} (s : Stable P) where
  ruleset base_rules = (
    keeps_rules, Keeps-now, Keeps-read_db, Keeps-kv_read, Keeps-change_intent, Keeps-write_audit,
    Keeps-get_portfolio, Keeps-get_quote, Keeps-write_paper,
  )

  pub Keeps-decide :
      (id : ℕ) (by : String) (f : TradeIntent → TradeIntent) → Keeps P (decide id by f)
  unfolding decide
  Keeps-decide id by f = search base_rules depth 8

  pub Keeps-fail : (id : ℕ) (by : String) (o : Outcome) → Keeps P (fail id by o)
  unfolding fail
  Keeps-fail id by o = Keeps-decide id by _

  pub Keeps-stop_failed :
      {A : Type 0} (id : ℕ) (by : String) (o : Outcome) → Keeps P (stop_failed {A = A} id by o)
  unfolding stop_failed
  Keeps-stop_failed id by o = Keeps-bind _ _ (Keeps-fail id by o) (λ _. Keeps-pure _)

  pub Keeps-read_execution_policy : Keeps P read_execution_policy
  unfolding read_execution_policy read_raw_policy
  Keeps-read_execution_policy = search base_rules depth 40

  ruleset intent_rules = (base_rules, Keeps-decide, Keeps-fail, Keeps-stop_failed)

  Keeps-max_age_days : Keeps P read_walk_forward_max_age_days
  unfolding read_walk_forward_max_age_days
  Keeps-max_age_days = search base_rules depth 14

  Keeps-check_freshness : (n : ℕ) → Keeps P (check_freshness n)
  unfolding check_freshness
  Keeps-check_freshness n = search (base_rules, Keeps-max_age_days) depth 14

  Keeps-check_verdict : (row : Strategy) → Keeps P (check_verdict row)
  unfolding check_verdict
  Keeps-check_verdict row = search (base_rules, Keeps-check_freshness) depth 14

  Keeps-check_strategy : (id : ℕ) → Keeps P (check_strategy id)
  unfolding check_strategy
  Keeps-check_strategy id = search (base_rules, Keeps-check_verdict) depth 14

  pub Keeps-check_walk_forward_gate : Keeps P check_walk_forward_gate
  unfolding check_walk_forward_gate
  Keeps-check_walk_forward_gate = search (base_rules, Keeps-check_strategy) depth 14

  Keeps-demoted : Keeps P demoted
  unfolding demoted
  Keeps-demoted = search base_rules depth 8

  Keeps-opening_mode : (p : ExecutionPolicy) (a : TradeAction) → Keeps P (opening_mode p a)
  unfolding opening_mode
  Keeps-opening_mode p a =
      search (base_rules, Keeps-check_walk_forward_gate, Keeps-demoted) depth 14

  Keeps-effective_mode : (p : ExecutionPolicy) (a : TradeAction) → Keeps P (effective_mode p a)
  unfolding effective_mode
  Keeps-effective_mode p a = search (base_rules, Keeps-opening_mode) depth 14

  Keeps-resolve_exit_routing :
      (id symbol broker : ℕ) (by : String) → Keeps P (resolve_exit_routing id symbol broker by)
  unfolding resolve_exit_routing
  Keeps-resolve_exit_routing id symbol broker by = search intent_rules depth 14

  Keeps-resolve_effective :
      (p : ExecutionPolicy) (a : TradeAction) → Keeps P (resolve_effective p a)
  unfolding resolve_effective
  Keeps-resolve_effective p a = search (base_rules, Keeps-effective_mode) depth 14

  pub Keeps-resolve_mode :
      (p : ExecutionPolicy) (id symbol : ℕ) (a : TradeAction) (by : String)
      → Keeps P (resolve_mode p id symbol a by)
  unfolding resolve_mode
  Keeps-resolve_mode p id symbol exit by =
      search (base_rules, Keeps-resolve_exit_routing, Keeps-resolve_effective) depth 14
  Keeps-resolve_mode p id symbol long by = Keeps-resolve_effective p long
  Keeps-resolve_mode p id symbol short by = Keeps-resolve_effective p short
  Keeps-resolve_mode p id symbol hold by = Keeps-resolve_effective p hold

  Keeps-max_age_ms : Keeps P read_real_state_max_age_ms
  unfolding read_real_state_max_age_ms
  Keeps-max_age_ms = search base_rules depth 14

  Keeps-account_if_fresh : (b : ℕ) (n : NavSnapshot) → Keeps P (account_if_fresh b n)
  unfolding account_if_fresh
  Keeps-account_if_fresh b n = search (base_rules, Keeps-max_age_ms) depth 14

  pub Keeps-get_real_account_state : (b : ℕ) → Keeps P (get_real_account_state b)
  unfolding get_real_account_state
  Keeps-get_real_account_state b = search (base_rules, Keeps-account_if_fresh) depth 14

  pub Keeps-record_no_change : (id : ℕ) (by : String) → Keeps P (record_no_change id by)
  unfolding record_no_change
  Keeps-record_no_change id by = Keeps-decide id by _

  pub Keeps-load_paper : Keeps P load_paper
  unfolding load_paper
  Keeps-load_paper = search base_rules depth 14

  Keeps-read_market : Keeps P read_market
  unfolding read_market
  Keeps-read_market = record { at = λ w h. s.at_drift _ w refl refl refl refl h }

  pub Keeps-evaluate_paper_gate :
      (a : Account) (p : ExecutionPolicy) → Keeps P (evaluate_paper_gate a p)
  unfolding evaluate_paper_gate
  Keeps-evaluate_paper_gate a p = search (base_rules, Keeps-read_market) depth 14

  pub Keeps-reject_by_gate : (id : ℕ) (by : String) (r : Refusal) → Keeps P (reject_by_gate id by r)
  unfolding reject_by_gate
  Keeps-reject_by_gate id by r = Keeps-decide id by _

  pub Keeps-run_paper_execution :
      (id symbol : ℕ) (a : TradeAction) (account : Account) (by : String) (n : Number)
      (p : ExecutionPolicy)
      → Keeps P (run_paper_execution id symbol a account by n p)
  unfolding run_paper_execution fill_on_paper record_fill
  Keeps-run_paper_execution id symbol a account by n p = search intent_rules depth 20

  pub Keeps-find_pending : (id : ℕ) → Keeps P (find_pending id)
  unfolding find_pending
  Keeps-find_pending id = search base_rules depth 14

  pub Keeps-reject : (id : ℕ) (by reason : String) → Keeps P (reject id by reason)
  unfolding reject
  Keeps-reject id by reason = search (intent_rules, Keeps-find_pending) depth 14
