-- ===== src/TradeIntent/Policy.antt =====
-- `_readExecutionPolicy`, `getPolicy` and `setPolicy` of
-- apps/api/src/trade-intent/trade-intent.service.ts. Readings that the code starts together are made
-- one after another; the first that fails ends the method.
use Prim.Native.Nat.{◌^◌}
use open_neotrader.Base.{ℕ, ◌*◌, ◌-◌, String, Bool, true, false, ◌||◌, Option, if◌then◌else◌}
use open_neotrader.Number.{Number, finite, pos, num_of, zero_num, num_lt, num_le}
use open_neotrader.Exec.{pure, gets, skip, ◌>>=◌, ◌>>◌, on_option}
use open_neotrader.Common.Kv.{Readers, kv_str, kv_bool, kv_num}
use open_neotrader.Execution.Account.{Arithmetic, RiskPolicy}
use open_neotrader.Store.World.{Action, Done}
use open_neotrader.Store.Calls.{kv_read, kv_write}
use open_neotrader.Reconciliation.Portfolio.Sync.{broker_plugin_id_key, trimmed}

-- a double, `m * 2 ^ -k`
unfoldable pub binary : ℕ → ℕ → Number
binary m k = finite (pos (m * 2 ^ (1074 - k)))

-- The decimal literals `0.1`, `0.05`, `0.06` and `0.03` are the doubles next to them.
unfoldable pub one_tenth : Number
unfolding binary
one_tenth = binary 3602879701896397 55

unfoldable pub one_twentieth : Number
unfolding binary
one_twentieth = binary 3602879701896397 56

unfoldable pub six_percent : Number
unfolding binary
six_percent = binary 1080863910568919 54

unfoldable pub three_percent : Number
unfolding binary
three_percent = binary 1080863910568919 55

-- `ExecutionPolicy`; the empty broker id is none
pub record ExecutionPolicy : Type 0 where
  pub autonomous : Bool
  pub max_position_pct : Number
  pub max_open_positions : Number
  pub max_drawdown_halt_pct : Number
  pub real : Bool
  pub broker_plugin_id : Option ℕ
  pub max_order_notional : Number
  pub max_short_notional_pct : Number
  pub allow_real_short : Bool
  pub loss_circuit_breaker_enabled : Bool
  pub max_daily_loss_pct : Number
  pub max_weekly_loss_pct : Number

-- the texts of the twelve keys
pub record RawPolicy : Type 0 where
  pub autonomous : Option String
  pub max_position_pct : Option String
  pub max_open_positions : Option String
  pub max_drawdown_halt_pct : Option String
  pub real : Option String
  pub broker_plugin_id : Option String
  pub max_order_notional : Option String
  pub max_short_notional_pct : Option String
  pub allow_real_short : Option String
  pub loss_circuit_breaker_enabled : Option String
  pub max_daily_loss_pct : Option String
  pub max_weekly_loss_pct : Option String

-- a number that is not in `(0, top]` gives way to the default
unfoldable pub above_zero_up_to : Number → Number → Number → Number
above_zero_up_to top fallback n = if num_le n zero_num || num_lt top n then fallback else n

unfoldable pub at_least_one : Number → Number
at_least_one n = if num_lt n (num_of 1) then num_of 1 else n

unfoldable pub positive_or : Number → Number → Number
positive_or fallback n = if num_le n zero_num then fallback else n

-- what `_readExecutionPolicy` makes of the texts
unfoldable pub policy_of : Readers → Arithmetic → RawPolicy → ExecutionPolicy
policy_of r a raw = record {
  autonomous = kv_bool r raw.autonomous true;
  max_position_pct =
      above_zero_up_to (num_of 1) one_tenth (kv_num r raw.max_position_pct one_tenth);
  max_open_positions = at_least_one (a.round (kv_num r raw.max_open_positions (num_of 10)));
  max_drawdown_halt_pct =
      above_zero_up_to (num_of 100) (num_of 25) (kv_num r raw.max_drawdown_halt_pct (num_of 25));
  real = kv_bool r raw.real false;
  broker_plugin_id = trimmed r (kv_str r raw.broker_plugin_id);
  max_order_notional = positive_or (num_of 1000) (kv_num r raw.max_order_notional (num_of 1000));
  max_short_notional_pct =
      above_zero_up_to (num_of 1) one_tenth (kv_num r raw.max_short_notional_pct one_tenth);
  allow_real_short = kv_bool r raw.allow_real_short false;
  loss_circuit_breaker_enabled = kv_bool r raw.loss_circuit_breaker_enabled true;
  max_daily_loss_pct =
      above_zero_up_to (num_of 1) three_percent (kv_num r raw.max_daily_loss_pct three_percent);
  max_weekly_loss_pct =
      above_zero_up_to (num_of 1) six_percent (kv_num r raw.max_weekly_loss_pct six_percent);
}

unfoldable pub read_raw_policy : Action RawPolicy
read_raw_policy = do
  autonomous ← kv_read "execution.autonomous"
  position ← kv_read "execution.max_position_pct"
  open_positions ← kv_read "execution.max_open_positions"
  halt_pct ← kv_read "execution.max_drawdown_halt_pct"
  real_text ← kv_read "execution.real"
  broker ← kv_read broker_plugin_id_key
  notional ← kv_read "execution.max_order_notional"
  short_notional ← kv_read "execution.max_short_notional_pct"
  real_short ← kv_read "execution.allow_real_short"
  breaker ← kv_read "execution.loss_circuit_breaker_enabled"
  daily ← kv_read "execution.max_daily_loss_pct"
  weekly ← kv_read "execution.max_weekly_loss_pct"
  pure (record {
    autonomous = autonomous;
    max_position_pct = position;
    max_open_positions = open_positions;
    max_drawdown_halt_pct = halt_pct;
    real = real_text;
    broker_plugin_id = broker;
    max_order_notional = notional;
    max_short_notional_pct = short_notional;
    allow_real_short = real_short;
    loss_circuit_breaker_enabled = breaker;
    max_daily_loss_pct = daily;
    max_weekly_loss_pct = weekly;
  })

-- `_readExecutionPolicy`, and `getPolicy`
unfoldable pub read_execution_policy : Action ExecutionPolicy
read_execution_policy = do
  readers ← gets (λ w. w.external.readers)
  arithmetic ← gets (λ w. w.external.arithmetic)
  raw ← read_raw_policy
  pure (policy_of readers arithmetic raw)

-- `Partial<ExecutionPolicy>`
pub record PolicyPatch : Type 0 where
  pub autonomous : Option Bool
  pub real : Option Bool
  pub broker_plugin_id : Option String
  pub max_position_pct : Option Number
  pub max_open_positions : Option Number
  pub max_drawdown_halt_pct : Option Number
  pub max_order_notional : Option Number
  pub max_short_notional_pct : Option Number
  pub allow_real_short : Option Bool
  pub loss_circuit_breaker_enabled : Option Bool
  pub max_daily_loss_pct : Option Number
  pub max_weekly_loss_pct : Option Number

-- `String(flag)`
abbrev pub show_bool : Bool → String
show_bool true = "true"
show_bool false = "false"

unfoldable pub write_if : {A : Type 0} → String → (A → String) → Option A → Action Done
write_if key show value = on_option value (λ a. kv_write key (show a)) skip

-- `setPolicy`
unfoldable pub set_policy : PolicyPatch → Action ExecutionPolicy
set_policy patch = do
  readers ← gets (λ w. w.external.readers)
  let number : Number → String = readers.show_number
  write_if "execution.autonomous" show_bool patch.autonomous
  write_if "execution.real" show_bool patch.real
  write_if broker_plugin_id_key (λ s. s) patch.broker_plugin_id
  write_if "execution.max_position_pct" number patch.max_position_pct
  write_if "execution.max_open_positions" number patch.max_open_positions
  write_if "execution.max_drawdown_halt_pct" number patch.max_drawdown_halt_pct
  write_if "execution.max_order_notional" number patch.max_order_notional
  write_if "execution.max_short_notional_pct" number patch.max_short_notional_pct
  write_if "execution.allow_real_short" show_bool patch.allow_real_short
  write_if "execution.loss_circuit_breaker_enabled" show_bool patch.loss_circuit_breaker_enabled
  write_if "execution.max_daily_loss_pct" number patch.max_daily_loss_pct
  write_if "execution.max_weekly_loss_pct" number patch.max_weekly_loss_pct
  read_execution_policy

-- the part of the policy that the entry gate of the paper account takes
abbrev pub risk_policy_of : ExecutionPolicy → RiskPolicy
risk_policy_of policy = record {
  max_position_pct = policy.max_position_pct;
  max_open_positions = policy.max_open_positions;
  max_drawdown_halt_pct = policy.max_drawdown_halt_pct;
  max_short_notional_pct = policy.max_short_notional_pct;
  loss_circuit_breaker_enabled = policy.loss_circuit_breaker_enabled;
  max_daily_loss_pct = policy.max_daily_loss_pct;
  max_weekly_loss_pct = policy.max_weekly_loss_pct;
}
