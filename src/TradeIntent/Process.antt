-- ===== src/TradeIntent/Process.antt =====
-- `autoProcess`, `approve`, `reject`, `recordIntent` and the paper execution of
-- apps/api/src/trade-intent/trade-intent.service.ts. The two deciding methods have one body but for the
-- sizing and the name of who decides. The columns `rationale` and `timeframe`, which are only stored,
-- are left out, and so are the fields of the paper account that no code here reads.
use open_neotrader.Base.{
  ℕ, suc, String, Bool, true, false, ◌&&◌, Option, none, some, [], ◌==◌, if◌then◌else◌, find,
  is_yes, is_some, or_default,
}
use open_neotrader.Number.{Number, num_of, zero_num, num_le}
use open_neotrader.Exec.{
  ok, intent_not_found, intent_not_pending, pure, raise, gets, attempt, skip, ◌>>=◌, ◌>>◌,
  on_option, on_result,
}
use open_neotrader.Execution.Account.{Account, Arithmetic, Market, EntryGateResult, FillResult}
use open_neotrader.Execution.Gate.{is_price, evaluate_entry_gate}
use open_neotrader.Execution.Fill.{execute_fill}
use open_neotrader.Store.Rows.{
  IntentStatus, TradeAction, exit, hold, Mode, paper, real, TradeIntent, no_account_state,
  bad_quote, nothing_to_close, filled_on_paper, Refusal, drawdown, too_many_positions, by_gate,
  by_text,
}
use open_neotrader.Store.World.{Action, External}
use open_neotrader.Store.Calls.{read_db, get_quote, write_paper}
use open_neotrader.TradeIntent.Policy.{
  ExecutionPolicy, risk_policy_of, read_execution_policy, one_twentieth,
}
use open_neotrader.TradeIntent.Mode.{decide, fail, resolve_mode}
use open_neotrader.TradeIntent.Real.{
  RealAccountState, get_real_account_state, real_drawdown_pct, record_no_change, unless_stopped,
  execute_real,
}

pub IntentStatus-discrete : Discrete IntentStatus
IntentStatus-discrete = hlevel

-- the paper account before its first trade
unfoldable pub initial_account : Account
initial_account = record {
  equity = num_of 10000;
  cash = num_of 10000;
  positions = [];
  hwm = none;
  day_key = none;
  day_start_equity = none;
  week_key = none;
  week_start_equity = none;
}

unfoldable pub load_paper : Action Account
load_paper = do row ← read_db (λ db. db.paper); pure (or_default row initial_account)

-- what the market and the calendar answer to one evaluation of the gate
abbrev pub market_at : ℕ → External → Market
market_at n e = record {
  mark_quote = e.quote n;
  fill_quote = e.quote n;
  arrival = e.arrival n;
  today = e.day_of (e.now n);
  this_week = e.week_of (e.now n);
}

unfoldable pub read_market : Action Market
read_market w = (ok (market_at w.calls_made w.external), record w { calls_made = suc w.calls_made })

-- `_passesAutoRisk` of the real account
unfoldable pub passes_auto_risk : Arithmetic → RealAccountState → ExecutionPolicy → Option Refusal
passes_auto_risk a state policy =
    if num_le policy.max_drawdown_halt_pct (real_drawdown_pct a state)
    then some drawdown
    else if num_le policy.max_open_positions (num_of state.open_positions_count)
    then some too_many_positions
    else none

-- the paper account's branch of `_evaluateEntryRiskGate`
unfoldable pub evaluate_paper_gate : Account → ExecutionPolicy → Action EntryGateResult
evaluate_paper_gate account policy = do
  market ← read_market
  a ← gets (λ w. w.external.arithmetic)
  let gate : EntryGateResult = evaluate_entry_gate a market account (risk_policy_of policy)
  if is_some gate.refusal && gate.baseline_changed then write_paper gate.state else skip
  pure gate

unfoldable pub reject_by_gate : ℕ → String → Refusal → Action TradeIntent
reject_by_gate id by refusal = decide id by (λ t. record t {
  status = IntentStatus.rejected_intent;
  reject_reason = some (by_gate refusal);
})

abbrev pub is_exit : TradeAction → Bool
is_exit exit = true
is_exit _ = false

-- the intent's update after a fill on paper
unfoldable pub record_fill : ℕ → TradeAction → Number → String → FillResult → Action TradeIntent
record_fill id action price by fill =
    if is_exit action && fill.no_position
    then decide id by
        (λ t. record t { status = IntentStatus.skipped; outcome = some nothing_to_close })
    else decide id by (λ t. record t {
      status = IntentStatus.executed;
      fill_price = some price;
      quantity = some fill.quantity;
      realized_pnl = fill.realized_pnl;
      outcome = some (filled_on_paper price fill.quantity);
    })

unfoldable pub fill_on_paper :
    ℕ → ℕ → TradeAction → Account → String → Number → ExecutionPolicy → Number → Action TradeIntent
fill_on_paper id symbol action account by sizing_pct policy price = do
  a ← gets (λ w. w.external.arithmetic)
  let fill : FillResult =
      execute_fill a action symbol price account sizing_pct policy.max_position_pct
        policy.max_short_notional_pct zero_num
  if is_price price
      then write_paper fill.new_state >> record_fill id action price by fill
      else fail id by bad_quote

-- `_runPaperExecution`
unfoldable pub run_paper_execution :
    ℕ → ℕ → TradeAction → Account → String → Number → ExecutionPolicy → Action TradeIntent
run_paper_execution id symbol action account by sizing_pct policy = do
  quote ← attempt (get_quote symbol)
  on_result quote (fill_on_paper id symbol action account by sizing_pct policy)
      (λ _. fail id by bad_quote)

module _ (id symbol : ℕ) (by : String) (policy : ExecutionPolicy) (sizing_pct : Number) where
  -- an entry with real money, gated by the real account's state
  unfoldable pub open_real : TradeAction → Option RealAccountState → Action TradeIntent
  open_real action state =
      on_option state
        (λ s. do
          a ← gets (λ w. w.external.arithmetic)
          on_option (passes_auto_risk a s policy) (reject_by_gate id by)
              (execute_real id symbol action policy (some s) by sizing_pct))
        (fail id by no_account_state)

  -- an entry on paper
  unfoldable pub open_on_paper : TradeAction → Account → Action TradeIntent
  open_on_paper action account = do
    gate ← evaluate_paper_gate account policy
    on_option gate.refusal (reject_by_gate id by)
        (run_paper_execution id symbol action gate.state by sizing_pct policy)

  abbrev real_state : Action (Option RealAccountState)
  real_state = on_option policy.broker_plugin_id get_real_account_state (pure none)

  -- what the deciding methods do once the mode is known and the paper account is loaded
  unfoldable pub execute_in : Mode → TradeAction → Account → Action TradeIntent
  execute_in mode hold account = record_no_change id by
  execute_in real exit account = do
    state ← real_state
    execute_real id symbol exit policy state by sizing_pct
  execute_in real action account = do state ← real_state; open_real action state
  execute_in paper exit account = run_paper_execution id symbol exit account by sizing_pct policy
  execute_in paper action account = open_on_paper action account

  unfoldable pub route : TradeAction → Action TradeIntent
  route action = do
    resolved ← resolve_mode policy id symbol action by
    unless_stopped resolved (λ mode. do account ← load_paper; execute_in mode action account)

unfoldable pub find_pending : ℕ → Action TradeIntent
find_pending id = do
  row ← read_db (λ db. find (λ t. t.id == id) db.intents)
  on_option row
      (λ t.
        if is_yes (IntentStatus-discrete t.status IntentStatus.pending)
        then pure t
        else raise intent_not_pending)
      (raise intent_not_found)

-- the body of `autoProcess` and of `approve`
unfoldable pub process_intent : String → (ExecutionPolicy → Number) → ℕ → Action TradeIntent
process_intent by sizing id = do
  intent ← find_pending id
  policy ← read_execution_policy
  route id intent.symbol by policy (sizing policy) intent.action

-- `autoProcess`
unfoldable pub auto_process : ℕ → Action TradeIntent
auto_process id = process_intent "autonomous" (λ policy. policy.max_position_pct) id

-- `approve`
unfoldable pub approve : ℕ → String → Action TradeIntent
approve id by = process_intent by (λ _. one_twentieth) id

-- `reject`
unfoldable pub reject : ℕ → String → String → Action TradeIntent
reject id by reason = do
  find_pending id
  decide id by (λ t. record t {
    status = IntentStatus.rejected_intent;
    reject_reason = some (by_text reason);
  })
