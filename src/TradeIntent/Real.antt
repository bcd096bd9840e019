-- ===== src/TradeIntent/Real.antt =====
-- The real-money execution of an intent in apps/api/src/trade-intent/trade-intent.service.ts:
-- `getRealAccountState`, `_checkExecuteRealPreconditions`, `_resolveRealSideAndQty`, `_executeReal`.
-- The fast poll that `_executeReal` starts without waiting for it is a step of its own.
use open_neotrader.Base.{
  ℕ, String, Bool, not, ◌&&◌, Option, none, some, ◌==◌, if◌then◌else◌, find, length, select, is_yes,
  is_some,
}
use open_neotrader.Number.{
  Number, nan, num_of, num_abs, zero_num, num_lt, num_le, is_finite, num_max,
}
use open_neotrader.Exec.{ok, err, Result, pure, gets, attempt, ◌>>=◌, on_option, on_result}
use open_neotrader.Common.Kv.{kv_num, Readers}
use open_neotrader.Common.Halt.{is_real_execution_halted}
use open_neotrader.Execution.Account.{Arithmetic}
use open_neotrader.Execution.Gate.{is_price}
use open_neotrader.Store.Rows.{
  IntentStatus, TradeAction, exit, hold, long, TradeIntent, no_change, no_account_state,
  kill_switch, no_broker, short_not_allowed, walk_forward, bad_quote, not_finite, no_exit_quantity,
  no_broker_position, no_quantity, over_notional, submit_threw, submit_refused, requested, Side,
  buy, sell, Status, Status-discrete, RealOrder, NavSnapshot, Position,
}
use open_neotrader.Store.World.{Action}
use open_neotrader.Store.Calls.{now, read_db, kv_read, get_portfolio, get_quote}
use open_neotrader.RealOrder.Submit.{SubmitArgs, submit}
use open_neotrader.Reconciliation.Sweep.{or_null}
use open_neotrader.TradeIntent.Policy.{ExecutionPolicy}
use open_neotrader.TradeIntent.Mode.{
  Resolved, stopped, goes, decide, fail, stop_failed, elapsed, between, check_walk_forward_gate,
  is_opening, is_short_action, position_of,
}

-- `RealAccountState`
pub record RealAccountState : Type 0 where
  pub equity : Number
  pub hwm : Number
  pub buying_power : Number
  pub open_positions_count : ℕ

abbrev pub max_age_of : Readers → Option String → Number
max_age_of readers raw =
    between (num_of 30000) (num_of 3600000) (kv_num readers raw (num_of 300000))

-- `_readRealStateMaxAgeMs`
unfoldable pub read_real_state_max_age_ms : Action Number
read_real_state_max_age_ms = do
  readers ← gets (λ w. w.external.readers)
  raw ← attempt (kv_read "execution.real_state_max_age_ms")
  pure (max_age_of readers (or_null raw))

abbrev pub account_of : NavSnapshot → ℕ → RealAccountState
account_of s count = record {
  equity = s.equity;
  hwm = s.hwm;
  buying_power = s.buying_power;
  open_positions_count = count;
}

-- the state that a snapshot tells, unless it is too old
unfoldable pub account_if_fresh : ℕ → NavSnapshot → Action (Option RealAccountState)
account_if_fresh broker s = do
  time ← now
  max_age ← read_real_state_max_age_ms
  let counted : Action (Option RealAccountState) = do
    count ← read_db (λ db. length (select (λ p. p.broker_plugin_id == broker) db.positions))
    pure (some (account_of s count))
  if num_lt max_age (elapsed time s.ts) then pure none else counted

-- `getRealAccountState`
unfoldable pub get_real_account_state : ℕ → Action (Option RealAccountState)
get_real_account_state broker = do
  snapshot ← read_db (λ db. find (λ s. s.broker_plugin_id == broker) db.snapshots)
  on_option snapshot (account_if_fresh broker) (pure none)

-- the guards of `_checkExecuteRealPreconditions` after the kill-switch; their value is the broker
unfoldable pub check_walk_forward : ℕ → TradeAction → ℕ → String → Action (Resolved ℕ)
check_walk_forward id action broker by =
    if is_opening action
    then (do
      failure ← check_walk_forward_gate
      on_option failure (λ f. stop_failed id by (walk_forward f)) (pure (goes broker)))
    else pure (goes broker)

unfoldable pub check_account :
    ℕ → ExecutionPolicy → TradeAction → Option RealAccountState → String → ℕ → Action (Resolved ℕ)
check_account id policy action state by broker =
    if is_opening action && not (is_some state)
    then stop_failed id by no_account_state
    else if is_short_action action && not policy.allow_real_short
    then stop_failed id by short_not_allowed
    else check_walk_forward id action broker by

unfoldable pub check_broker :
    ℕ → ExecutionPolicy → TradeAction → Option RealAccountState → String → Action (Resolved ℕ)
check_broker id policy action state by =
    on_option policy.broker_plugin_id (check_account id policy action state by)
      (stop_failed id by no_broker)

-- `_checkExecuteRealPreconditions`
unfoldable pub check_execute_real_preconditions :
    ℕ → ExecutionPolicy → TradeAction → Option RealAccountState → String → Action (Resolved ℕ)
check_execute_real_preconditions id policy action state by =
    if is_opening action
    then (do
      halted ← is_real_execution_halted
      if halted then stop_failed id by kill_switch else check_broker id policy action state by)
    else check_broker id policy action state by

abbrev pub exit_qty : Option Position → Option Number
exit_qty none = none
exit_qty (some p) = if num_le (num_abs p.qty) zero_num then none else some (num_abs p.qty)

-- `_resolveRealExitQty`, with the side that its caller adds
unfoldable pub resolve_real_exit_qty : ℕ → ℕ → ℕ → String → Action (Resolved (Side × Number))
resolve_real_exit_qty id symbol broker by = do
  fetched ← attempt (get_portfolio broker)
  on_result fetched
      (λ p.
        on_option (exit_qty (position_of symbol p.positions)) (λ qty. pure (goes (sell, qty)))
          (stop_failed id by no_broker_position))
      (λ _. stop_failed id by no_exit_quantity)

module _ (a : Arithmetic) where
  -- `_clampToPositionCeiling` and `_clampToShortNotionalCeiling`
  unfoldable pub clamp_to_position_ceiling : Number → Number → Number → Number → Number
  clamp_to_position_ceiling qty equity price max_pct =
      let max_qty = a.floor (a.div (a.mul equity max_pct) price) in
      if num_le qty zero_num then qty else if num_lt max_qty qty then max_qty else qty

  -- the quantity of an entry, as `_resolveRealSideAndQty` sizes it
  unfoldable pub entry_qty :
      TradeAction → ExecutionPolicy → RealAccountState → Number → Number → Number
  entry_qty action policy state price sizing_pct =
      let wanted = a.floor (a.div (a.mul state.equity sizing_pct) price) in
      let held_down = clamp_to_position_ceiling wanted state.equity price policy.max_position_pct in
      let qty =
        if is_short_action action
        then clamp_to_position_ceiling held_down state.equity price policy.max_short_notional_pct
        else held_down in
      let affordable = a.floor (a.div state.buying_power price) in
      if num_lt affordable qty then affordable else qty

  -- `_computeDrawdownPct` of the real account
  unfoldable pub real_drawdown_pct : RealAccountState → Number
  real_drawdown_pct state =
      if num_lt zero_num state.hwm
      then num_max zero_num (a.mul (a.div (a.sub state.hwm state.equity) state.hwm) (num_of 100))
      else zero_num

abbrev pub side_of_action : TradeAction → Side
side_of_action long = buy
side_of_action _ = sell

unfoldable pub size_entry :
    ℕ
    → TradeAction
    → ExecutionPolicy
    → String
    → Number
    → Number
    → RealAccountState
    → Action (Resolved (Side × Number))
size_entry id action policy by price sizing_pct state = do
  a ← gets (λ w. w.external.arithmetic)
  if is_finite state.equity && is_finite state.buying_power
      then pure (goes (side_of_action action, entry_qty a action policy state price sizing_pct))
      else stop_failed id by not_finite

-- `_resolveRealSideAndQty`
unfoldable pub resolve_real_side_and_qty :
    ℕ
    → ℕ
    → TradeAction
    → ExecutionPolicy
    → ℕ
    → Option RealAccountState
    → Number
    → Number
    → String
    → Action (Resolved (Side × Number))
resolve_real_side_and_qty id symbol exit policy broker state price sizing_pct by =
    resolve_real_exit_qty id symbol broker by
resolve_real_side_and_qty id symbol action policy broker state price sizing_pct by =
    on_option state (size_entry id action policy by price sizing_pct)
      (stop_failed id by no_account_state)

-- the arguments that `_executeReal` hands to `submit`
abbrev pub args_of : ℕ → ℕ → ℕ → Side → Number → SubmitArgs
args_of id broker symbol side qty = record {
  trade_intent_id = id;
  broker_plugin_id = broker;
  symbol = symbol;
  side = side;
  requested_qty = qty;
  order_type = none;
  limit_price = none;
}

-- the intent's update once `submit` has returned a row
unfoldable pub record_submission : ℕ → String → Side → Number → RealOrder → Action TradeIntent
record_submission id by side qty order =
    if is_yes (Status-discrete order.status Status.submit_failed)
    then fail id by submit_refused
    else decide id by (λ t. record t {
      status = IntentStatus.real_pending;
      outcome = some (requested qty side order.id);
    })

unfoldable pub submit_and_record : ℕ → ℕ → ℕ → String → Side → Number → Action TradeIntent
submit_and_record id broker symbol by side qty = do
  submission ← attempt (submit (args_of id broker symbol side qty))
  on_result submission (record_submission id by side qty) (λ _. fail id by submit_threw)

-- the last checks of `_executeReal`: a quantity, and the notional ceiling that exits are exempt from
unfoldable pub check_and_submit :
    ℕ → ℕ → ℕ → TradeAction → ExecutionPolicy → Number → String → Side × Number → Action TradeIntent
check_and_submit id broker symbol action policy price by (side, qty) = do
  a ← gets (λ w. w.external.arithmetic)
  let exceeds : Bool = is_opening action && num_lt policy.max_order_notional (a.mul qty price)
  if num_le qty zero_num
      then fail id by no_quantity
      else if exceeds
      then fail id by (over_notional (a.mul qty price))
      else submit_and_record id broker symbol by side qty

-- an update that stopped the execution, or what comes next
unfoldable pub unless_stopped :
    {A : Type 0} → Resolved A → (A → Action TradeIntent) → Action TradeIntent
unless_stopped (stopped t) next = pure t
unless_stopped (goes a) next = next a

unfoldable pub record_no_change : ℕ → String → Action TradeIntent
record_no_change id by = decide id by (λ t. record t {
  status = IntentStatus.executed;
  quantity = some zero_num;
  outcome = some no_change;
})

-- `price` of `_executeReal`, NaN where the quote failed
abbrev pub price_or_nan : Result Number → Number
price_or_nan (ok q) = q
price_or_nan (err _) = nan

-- `_executeReal` after its preconditions
unfoldable pub execute_at_broker :
    ℕ
    → ℕ
    → TradeAction
    → ExecutionPolicy
    → Option RealAccountState
    → String
    → Number
    → ℕ
    → Action TradeIntent
execute_at_broker id symbol hold policy state by sizing_pct broker = do
  quote ← attempt (get_quote symbol)
  record_no_change id by
execute_at_broker id symbol action policy state by sizing_pct broker = do
  quote ← attempt (get_quote symbol)
  let price : Number = price_or_nan quote
  let sized : Action TradeIntent = do
    sized ← resolve_real_side_and_qty id symbol action policy broker state price sizing_pct by
    unless_stopped sized (check_and_submit id broker symbol action policy price by)
  if is_opening action && not (is_price price) then fail id by bad_quote else sized

-- `_executeReal`
unfoldable pub execute_real :
    ℕ
    → ℕ
    → TradeAction
    → ExecutionPolicy
    → Option RealAccountState
    → String
    → Number
    → Action TradeIntent
execute_real id symbol action policy state by sizing_pct = do
  checked ← check_execute_real_preconditions id policy action state by
  unless_stopped checked (execute_at_broker id symbol action policy state by sizing_pct)
