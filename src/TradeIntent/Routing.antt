-- ===== src/TradeIntent/Routing.antt =====
-- The body of `autoProcess` and `approve` in trade-intent.service.ts around `_executeReal`: where that
-- leads from one predicate to another, the whole body does.
use open_neotrader.Base.{ℕ, String, Option, none, some}
use open_neotrader.Number.{Number}
use open_neotrader.Exec.{pure, ◌>>=◌, on_option}
use open_neotrader.Exec.Keeps.{Keeps, Keeps-pure, Keeps-gets, Keeps-on_option}
use open_neotrader.Exec.Leads.{Leads, Leads-Keeps, Leads-bind, Leads-on_option}
use open_neotrader.Execution.Account.{Account}
use open_neotrader.Store.Rows.{TradeAction, long, short, exit, hold, Mode, paper, real}
use open_neotrader.Store.World.{World}
use open_neotrader.Store.Calls.Footprint.{Stable}
use open_neotrader.TradeIntent.Policy.{ExecutionPolicy}
use open_neotrader.TradeIntent.Mode.{Resolved, stopped, goes}
use open_neotrader.TradeIntent.Real.{
  RealAccountState, get_real_account_state, unless_stopped, execute_real,
}
use open_neotrader.TradeIntent.Process.{
  open_real, open_on_paper, execute_in, route, load_paper, passes_auto_risk,
}
use open_neotrader.TradeIntent.Keeps.{
  Keeps-get_real_account_state, Keeps-record_no_change, Keeps-reject_by_gate,
  Keeps-evaluate_paper_gate, Keeps-run_paper_execution, Keeps-load_paper, Keeps-resolve_mode,
  Keeps-fail,
}

module _ {P Q : World → Type 0} (s : Stable P) (sub : (w : World) → P w → Q w) (id symbol : ℕ)
    (by : String) (policy : ExecutionPolicy) (sizing_pct : Number) where
  -- `_executeReal` leads from `P` to `Q`
  abbrev Executes : TradeAction → Type 0
  Executes action =
      (state : Option RealAccountState)
      → Leads P Q (execute_real id symbol action policy state by sizing_pct)

  Leads-open_real :
      (action : TradeAction)
      → Executes action
      → (state : Option RealAccountState)
      → Leads P Q (open_real id symbol by policy sizing_pct action state)
  unfolding open_real
  Leads-open_real action executes state =
      Leads-on_option state _ _
        (λ account. Leads-bind _ _ sub (Keeps-gets _) (λ a.
          Leads-on_option (passes_auto_risk a account policy) _ _
            (λ r. Leads-Keeps _ sub (Keeps-reject_by_gate s id by r)) (executes (some account))))
        (Leads-Keeps _ sub (Keeps-fail s id by _))

  Keeps-open_on_paper :
      (action : TradeAction) (account : Account)
      → Leads P Q (open_on_paper id symbol by policy sizing_pct action account)
  unfolding open_on_paper
  Keeps-open_on_paper action account =
      Leads-bind _ _ sub (Keeps-evaluate_paper_gate s account policy) (λ gate. Leads-Keeps _ sub (
        Keeps-on_option gate.refusal _ _ (Keeps-reject_by_gate s id by)
          (Keeps-run_paper_execution s id symbol action gate.state by sizing_pct policy)))

  Keeps-real_state : Keeps P (on_option policy.broker_plugin_id get_real_account_state (pure none))
  Keeps-real_state =
      Keeps-on_option policy.broker_plugin_id _ _ (Keeps-get_real_account_state s) (Keeps-pure none)

  Leads-execute_in :
      (mode : Mode) (action : TradeAction)
      → Executes action
      → (account : Account)
      → Leads P Q (execute_in id symbol by policy sizing_pct mode action account)
  unfolding execute_in
  Leads-execute_in mode hold executes account = Leads-Keeps _ sub (Keeps-record_no_change s id by)
  Leads-execute_in real exit executes account = Leads-bind _ _ sub Keeps-real_state executes
  Leads-execute_in real long executes account =
      Leads-bind _ _ sub Keeps-real_state (Leads-open_real long executes)
  Leads-execute_in real short executes account =
      Leads-bind _ _ sub Keeps-real_state (Leads-open_real short executes)
  Leads-execute_in paper exit executes account =
      Leads-Keeps _ sub (Keeps-run_paper_execution s id symbol exit account by sizing_pct policy)
  Leads-execute_in paper long executes account = Keeps-open_on_paper long account
  Leads-execute_in paper short executes account = Keeps-open_on_paper short account

  routed :
      (action : TradeAction)
      → Executes action
      → (resolved : Resolved Mode)
      → Leads P Q (
          unless_stopped resolved (λ mode. do
            account ← load_paper
            execute_in id symbol by policy sizing_pct mode action account))
  unfolding unless_stopped
  routed action executes (stopped t) = Leads-Keeps _ sub (Keeps-pure t)
  routed action executes (goes mode) =
      Leads-bind _ _ sub (Keeps-load_paper s) (Leads-execute_in mode action executes)

  pub Leads-route :
      (action : TradeAction)
      → Executes action
      → Leads P Q (route id symbol by policy sizing_pct action)
  unfolding route
  Leads-route action executes =
      Leads-bind _ _ sub (Keeps-resolve_mode s policy id symbol action by) (routed action executes)
