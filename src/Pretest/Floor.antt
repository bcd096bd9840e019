-- ===== src/Pretest/Floor.antt =====
-- `_readRiskPolicy` and `_applyKernelRiskFloor` of pretest.service.ts: the entries of a cycle pass the
-- gate of the paper account, and a ceiling on the symbols that the cycle adds, before they are filled.
use text.Mathlib.Text.{◌==◌ as str_eq}
use open_neotrader.Base.{
  ℕ, String, Bool, true, false, ◌||◌, ◌+◌, Option, none, some, List, [], ◌∷◌, map, some_of, length,
  ◌==◌, if◌then◌else◌,
}
use open_neotrader.Number.{num_of, num_le}
use open_neotrader.Exec.{Result, ok, err, type_error, pure, raise, gets, quietly, ◌>>=◌, ◌>>◌}
use open_neotrader.Common.Kv.{Readers, kv_bool, kv_num}
use open_neotrader.Store.Rows.{Refusal}
use open_neotrader.Execution.Account.{Arithmetic, GovernedPosition, Account, RiskPolicy}
use open_neotrader.Execution.Gate.{evaluate_entry_gate}
use open_neotrader.TradeIntent.Policy.{
  one_tenth, three_percent, six_percent, above_zero_up_to, at_least_one,
}
use open_neotrader.Pretest.State.{PretestPosition, PretestState, Trial, store_call, ask, read_kv}
use open_neotrader.Pretest.Book.{is_at}
use open_neotrader.Pretest.Fill.{absent, not_text, word, ToolCall}

-- the texts of the seven keys
pub record RawRisk : Type 0 where
  pub max_position_pct : Option String
  pub max_open_positions : Option String
  pub max_drawdown_halt_pct : Option String
  pub max_short_notional_pct : Option String
  pub loss_circuit_breaker_enabled : Option String
  pub max_daily_loss_pct : Option String
  pub max_weekly_loss_pct : Option String

-- what `_readRiskPolicy` makes of the texts
unfoldable pub risk_of : Readers → Arithmetic → RawRisk → RiskPolicy
risk_of r a raw = record {
  max_position_pct =
      above_zero_up_to (num_of 1) one_tenth (kv_num r raw.max_position_pct one_tenth);
  max_open_positions = at_least_one (a.round (kv_num r raw.max_open_positions (num_of 10)));
  max_drawdown_halt_pct =
      above_zero_up_to (num_of 100) (num_of 25) (kv_num r raw.max_drawdown_halt_pct (num_of 25));
  max_short_notional_pct =
      above_zero_up_to (num_of 1) one_tenth (kv_num r raw.max_short_notional_pct one_tenth);
  loss_circuit_breaker_enabled = kv_bool r raw.loss_circuit_breaker_enabled true;
  max_daily_loss_pct =
      above_zero_up_to (num_of 1) three_percent (kv_num r raw.max_daily_loss_pct three_percent);
  max_weekly_loss_pct =
      above_zero_up_to (num_of 1) six_percent (kv_num r raw.max_weekly_loss_pct six_percent);
}

-- `_readRiskPolicy`; readings that the code starts together are made one after another
unfoldable pub read_risk_policy : Trial RiskPolicy
read_risk_policy = do
  e ← gets (λ w. w.external)
  position ← read_kv "execution.max_position_pct"
  open_positions ← read_kv "execution.max_open_positions"
  halt_pct ← read_kv "execution.max_drawdown_halt_pct"
  short_notional ← read_kv "execution.max_short_notional_pct"
  breaker ← read_kv "execution.loss_circuit_breaker_enabled"
  daily ← read_kv "execution.max_daily_loss_pct"
  weekly ← read_kv "execution.max_weekly_loss_pct"
  pure (
      risk_of e.readers e.arithmetic (record {
        max_position_pct = position;
        max_open_positions = open_positions;
        max_drawdown_halt_pct = halt_pct;
        max_short_notional_pct = short_notional;
        loss_circuit_breaker_enabled = breaker;
        max_daily_loss_pct = daily;
        max_weekly_loss_pct = weekly;
      }))

abbrev governed : PretestPosition → GovernedPosition
governed p = record { symbol = p.symbol; quantity = p.quantity; avg_price = p.avg_price }

-- the portfolio as the gate sees it
abbrev pub account_of : PretestState → Account
account_of s = record {
  equity = s.equity;
  cash = s.cash;
  positions = map governed s.positions;
  hwm = s.hwm;
  day_key = s.day_key;
  day_start_equity = s.day_start_equity;
  week_key = s.week_key;
  week_start_equity = s.week_start_equity;
}

-- `{ ...currentState, ...gate.state }`; the gate hands the positions on as it gets them
abbrev pub merged : PretestState → Account → PretestState
merged s account = record s {
  equity = account.equity;
  cash = account.cash;
  hwm = account.hwm;
  day_key = account.day_key;
  day_start_equity = account.day_start_equity;
  week_key = account.week_key;
  week_start_equity = account.week_start_equity;
}

-- the symbol that a tool call wants to enter, if it is an entry; `toLowerCase` throws where the action
-- is no text
abbrev pub entry_of : ToolCall → Result (Option ℕ)
entry_of tc = elim tc.action [
  | absent ↦ ok none
  | not_text ↦ err type_error
  | word action ↦ ok (if str_eq action "long" || str_eq action "short" then tc.symbol else none)
]

-- one round of the loop: whether the call is passed on, the state, and the symbols that are reserved
pub record FloorStep : Type 0 where
  pub kept : Bool
  pub state : PretestState
  pub reserved : List ℕ

abbrev pub stepped : Bool → PretestState → List ℕ → FloorStep
stepped kept state reserved = record { kept = kept; state = state; reserved = reserved }

-- `alreadyHeld`
abbrev pub is_held : ℕ → List PretestPosition → List ℕ → Bool
is_held symbol ps reserved = some_of (is_at symbol) ps || some_of (λ s. s == symbol) reserved

-- `_auditPretestEntryRejected`, and the call is left out
unfoldable pub reject : PretestState → List ℕ → Trial FloorStep
reject state reserved = quietly store_call >> pure (stepped false state reserved)

-- the ceiling within the cycle
unfoldable pub reserve : RiskPolicy → ℕ → PretestState → List ℕ → Trial FloorStep
reserve policy symbol state reserved =
    if is_held symbol state.positions reserved
    then pure (stepped true state reserved)
    else if num_le policy.max_open_positions (num_of (length state.positions + length reserved))
    then reject state reserved
    else pure (stepped true state (symbol ∷ reserved))

abbrev pub after_gate : Option Refusal → RiskPolicy → ℕ → PretestState → List ℕ → Trial FloorStep
after_gate none policy symbol state reserved = reserve policy symbol state reserved
after_gate (some _) policy symbol state reserved = reject state reserved

unfoldable pub floor_entry : RiskPolicy → ℕ → PretestState → List ℕ → Trial FloorStep
floor_entry policy symbol state reserved = do
  a ← gets (λ w. w.external.arithmetic)
  m ← ask (λ e n. e.market n)
  let g = evaluate_entry_gate a m (account_of state) policy
  after_gate g.refusal policy symbol (merged state g.state) reserved

abbrev pub floor_by : Result (Option ℕ) → RiskPolicy → PretestState → List ℕ → Trial FloorStep
floor_by (err e) policy state reserved = raise e
floor_by (ok none) policy state reserved = pure (stepped true state reserved)
floor_by (ok (some symbol)) policy state reserved = floor_entry policy symbol state reserved

abbrev pub kept_if : Bool → ToolCall → List ToolCall → List ToolCall
kept_if true tc tcs = tc ∷ tcs
kept_if false tc tcs = tcs

-- the loop of `_applyKernelRiskFloor`
unfoldable pub floor_calls :
    RiskPolicy → List ToolCall → PretestState → List ℕ → Trial (List ToolCall × PretestState)
floor_calls policy [] state reserved = pure ([], state)
floor_calls policy (tc ∷ tcs) state reserved = do
  step ← floor_by (entry_of tc) policy state reserved
  rest ← floor_calls policy tcs step.state step.reserved
  pure (kept_if step.kept tc rest.0, rest.1)

-- `_applyKernelRiskFloor`
unfoldable pub apply_kernel_risk_floor :
    List ToolCall → PretestState → Trial (List ToolCall × PretestState)
apply_kernel_risk_floor tcs state = do policy ← read_risk_policy; floor_calls policy tcs state []
