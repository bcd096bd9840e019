-- ===== src/TradeIntent/Record.antt =====
-- `recordIntent`, `list` and the operator's view of the kill-switch in
-- apps/api/src/trade-intent/trade-intent.service.ts.
use text.Mathlib.Text.{◌==◌ as str_eq}
use open_neotrader.Base.{
  ℕ, String, Bool, true, false, not, ◌&&◌, Option, none, some, List, [], ◌∷◌, ◌++◌, ◌==◌,
  if◌then◌else◌, find, select, is_yes,
}
use open_neotrader.Number.{Number, num_of, zero_num, num_lt, is_finite}
use open_neotrader.Exec.{invalid_action, invalid_confidence, pure, raise, ◌>>=◌, ◌>>◌, on_option}
use open_neotrader.Common.Halt.{
  HaltStatus, clear_real_execution_halt, get_real_execution_halt_status,
}
use open_neotrader.Store.Rows.{
  IntentStatus, TradeAction, exit, hold, short, long, paper, TradeIntent, duplicate_of,
}
use open_neotrader.Store.World.{Action}
use open_neotrader.Store.Calls.{now, new_id, read_db, create_intent}
use open_neotrader.TradeIntent.Policy.{read_execution_policy}
use open_neotrader.TradeIntent.Process.{auto_process, IntentStatus-discrete}

-- the argument of `recordIntent`
pub record IntentDto : Type 0 where
  pub cycle_id : Option ℕ
  pub symbol : ℕ
  pub action : String
  pub confidence : Number

-- `VALID_ACTIONS`
abbrev pub parse_action : String → Option TradeAction
parse_action s =
    if str_eq s "long"
    then some long
    else if str_eq s "short"
    then some short
    else if str_eq s "exit"
    then some exit
    else if str_eq s "hold"
    then some hold
    else none

abbrev same_action : TradeAction → TradeAction → Bool
same_action long long = true
same_action short short = true
same_action exit exit = true
same_action hold hold = true
same_action _ _ = false

abbrev same_cycle : ℕ → Option ℕ → Bool
same_cycle cycle none = false
same_cycle cycle (some c) = c == cycle

-- an intent of the same cycle, symbol and action
unfoldable pub is_same_in_cycle : ℕ → ℕ → TradeAction → TradeIntent → Bool
is_same_in_cycle cycle symbol action t =
    same_cycle cycle t.cycle_id && (t.symbol == symbol && same_action t.action action)

unfoldable pub is_confidence : Number → Bool
is_confidence c = is_finite c && not (num_lt c zero_num) && not (num_lt (num_of 1) c)

-- the row that `recordIntent` creates
abbrev pub new_intent : IntentDto → TradeAction → ℕ → TradeIntent
new_intent dto action id = record {
  id = id;
  cycle_id = dto.cycle_id;
  symbol = dto.symbol;
  action = action;
  confidence = dto.confidence;
  mode = paper;
  status = IntentStatus.pending;
  fill_price = none;
  quantity = none;
  realized_pnl = none;
  reject_reason = none;
  decided_at = none;
  decided_by = none;
  outcome = none;
}

unfoldable pub record_duplicate : IntentDto → TradeAction → TradeIntent → Action TradeIntent
record_duplicate dto action prior = do
  time ← now
  id ← new_id
  let row : TradeIntent = record (new_intent dto action id) {
    status = IntentStatus.duplicate;
    decided_at = some time;
    decided_by = some "autonomous";
    outcome = some (duplicate_of prior.id);
  }
  create_intent row
  pure row

unfoldable pub record_new : IntentDto → TradeAction → Action TradeIntent
record_new dto action = do
  id ← new_id
  create_intent (new_intent dto action id)
  policy ← read_execution_policy
  if policy.autonomous then auto_process id else pure (new_intent dto action id)

-- the first intent of the cycle that an intent repeats
unfoldable pub prior_in_cycle : IntentDto → TradeAction → Action (Option TradeIntent)
prior_in_cycle dto action =
    on_option dto.cycle_id
      (λ cycle. read_db (λ db. find (is_same_in_cycle cycle dto.symbol action) db.intents))
      (pure none)

unfoldable pub record_valid : IntentDto → TradeAction → Action TradeIntent
record_valid dto action =
    if is_confidence dto.confidence
    then (do
      prior ← prior_in_cycle dto action
      on_option prior (record_duplicate dto action) (record_new dto action))
    else raise invalid_confidence

-- `recordIntent`
unfoldable pub record_intent : IntentDto → Action TradeIntent
record_intent dto = on_option (parse_action dto.action) (record_valid dto) (raise invalid_action)

abbrev has_status : Option IntentStatus → TradeIntent → Bool
has_status none t = true
has_status (some s) t = is_yes (IntentStatus-discrete t.status s)

abbrev newest_first : List TradeIntent → List TradeIntent
newest_first [] = []
newest_first (t ∷ ts) = newest_first ts ++ t ∷ []

-- `list`; the table's rows are in the order of their creation
unfoldable pub list_intents : Option IntentStatus → Action (List TradeIntent)
list_intents status = read_db (λ db. newest_first (select (has_status status) db.intents))

-- `listPending`
unfoldable pub list_pending : Action (List TradeIntent)
list_pending = list_intents (some IntentStatus.pending)

-- `clearRealExecutionHalt` of the service
unfoldable pub clear_halt : Action HaltStatus
clear_halt = do clear_real_execution_halt; get_real_execution_halt_status
