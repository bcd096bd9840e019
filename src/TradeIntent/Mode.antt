-- ===== src/TradeIntent/Mode.antt =====
-- Where an intent is executed: `_effectiveMode`, `_resolveExitRouting`, `_resolveMode` and the
-- walk-forward gate of apps/api/src/trade-intent/trade-intent.service.ts.
use text.Mathlib.Text.{◌==◌ as str_eq}
use open_neotrader.Base.{
  ℕ, ◌-◌, String, Bool, true, false, not, ◌&&◌, Option, none, some, List, leb, ◌==◌, if◌then◌else◌,
  is_some, find,
}
use open_neotrader.Number.{Number, num_of, num_neg, num_abs, zero_num, num_lt, is_finite}
use open_neotrader.Exec.{pure, gets, attempt, ◌>>=◌, ◌>>◌, on_option, on_result}
use open_neotrader.Common.Kv.{kv_num, kv_str, Readers}
use open_neotrader.Store.Rows.{
  IntentStatus, TradeAction, exit, hold, short, long, Mode, paper, real, TradeIntent, Outcome,
  no_exit_routing, WalkForwardFailure, no_strategy, strategy_lookup_failed, no_strategy_row,
  not_robust, unchecked, stale, Strategy, Position,
}
use open_neotrader.Store.World.{Action}
use open_neotrader.Store.Calls.{now, read_db, kv_read, get_portfolio, change_intent, write_audit}
use open_neotrader.Reconciliation.Sweep.{or_null}
use open_neotrader.TradeIntent.Policy.{ExecutionPolicy}

-- What a step of the execution returns: the intent's last update (`failedUpdate`), or a value.
pub data Resolved (A : Type 0) : Type 0 where
  stopped : TradeIntent → Resolved A
  goes : A → Resolved A

-- an update that stamps the intent with who decided it, and when
unfoldable pub decide : ℕ → String → (TradeIntent → TradeIntent) → Action TradeIntent
decide id by f = do
  time ← now
  change_intent id (λ t. f (record t { decided_at = some time; decided_by = some by }))

unfoldable pub fail : ℕ → String → Outcome → Action TradeIntent
fail id by outcome =
    decide id by (λ t. record t { status = IntentStatus.failed; outcome = some outcome })

unfoldable pub stop_failed : {A : Type 0} → ℕ → String → Outcome → Action (Resolved A)
stop_failed id by outcome = do t ← fail id by outcome; pure (stopped t)

-- `later - earlier`, in milliseconds
abbrev pub elapsed : ℕ → ℕ → Number
elapsed later earlier =
    if leb earlier later then num_of (later - earlier) else num_neg (num_of (earlier - later))

-- a number held between two bounds; what is not finite becomes the lower one
unfoldable pub between : Number → Number → Number → Number
between low high n =
    let raised = if not (is_finite n) then low else if num_lt n low then low else n in
    if num_lt high raised then high else raised

-- `_readWalkForwardMaxAgeDays`
unfoldable pub read_walk_forward_max_age_days : Action Number
read_walk_forward_max_age_days = do
  readers ← gets (λ w. w.external.readers)
  raw ← attempt (kv_read "execution.walk_forward_max_age_days")
  pure (between (num_of 1) (num_of 3650) (kv_num readers (or_null raw) (num_of 30)))

abbrev is_robust : Option String → Bool
is_robust none = false
is_robust (some v) = str_eq v "ROBUSTO"

-- the age of the verdict, against the window
unfoldable pub check_freshness : ℕ → Action (Option WalkForwardFailure)
check_freshness checked_at = do
  days ← read_walk_forward_max_age_days
  time ← now
  arithmetic ← gets (λ w. w.external.arithmetic)
  let is_stale : Bool = num_lt (arithmetic.mul days (num_of 86400000)) (elapsed time checked_at)
  pure (if is_stale then some stale else none)

-- the verdict on the applied strategy
unfoldable pub check_verdict : Strategy → Action (Option WalkForwardFailure)
check_verdict row =
    if is_robust row.walk_forward_verdict
    then on_option row.walk_forward_checked_at check_freshness (pure (some unchecked))
    else pure (some not_robust)

unfoldable pub check_strategy : ℕ → Action (Option WalkForwardFailure)
check_strategy id = do
  row ← attempt (read_db (λ db. find (λ s. s.id == id) db.strategies))
  on_result row (λ found. on_option found check_verdict (pure (some no_strategy_row)))
      (λ _. pure (some strategy_lookup_failed))

abbrev applied_id : Readers → Option String → Option ℕ
applied_id readers none = none
applied_id readers (some s) = readers.nonempty s

-- `_checkWalkForwardGate`: what it misses, none where it passes
unfoldable pub check_walk_forward_gate : Action (Option WalkForwardFailure)
check_walk_forward_gate = do
  readers ← gets (λ w. w.external.readers)
  raw ← attempt (kv_read "strategy.applied")
  on_option (applied_id readers (kv_str readers (or_null raw))) check_strategy
      (pure (some no_strategy))

-- `_auditDemotion`
unfoldable pub demoted : Action Mode
demoted = do write_audit; pure paper

abbrev pub is_opening : TradeAction → Bool
is_opening long = true
is_opening short = true
is_opening exit = false
is_opening hold = false

abbrev pub is_short_action : TradeAction → Bool
is_short_action short = true
is_short_action _ = false

-- the mode of an entry where real execution is configured
unfoldable pub opening_mode : ExecutionPolicy → TradeAction → Action Mode
opening_mode policy action = do
  failure ← check_walk_forward_gate
  on_option failure (λ _. demoted)
      (if is_short_action action && not policy.allow_real_short then demoted else pure real)

-- `_effectiveMode`
unfoldable pub effective_mode : ExecutionPolicy → TradeAction → Action Mode
effective_mode policy action =
    if policy.real && is_some policy.broker_plugin_id
    then (if is_opening action then opening_mode policy action else pure real)
    else pure paper

-- the quantity of a position that is not empty
abbrev pub held_qty : Option Position → Option Number
held_qty none = none
held_qty (some p) = if num_lt zero_num (num_abs p.qty) then some (num_abs p.qty) else none

abbrev pub position_of : ℕ → List Position → Option Position
position_of symbol positions = find (λ p. p.symbol == symbol) positions

-- `_resolveExitRouting`
unfoldable pub resolve_exit_routing : ℕ → ℕ → ℕ → String → Action (Resolved Mode)
resolve_exit_routing id symbol broker by = do
  fetched ← attempt (get_portfolio broker)
  on_result fetched
      (λ p.
        let held = held_qty (position_of symbol p.positions) in
        pure (goes (if is_some held then real else paper)))
      (λ _. stop_failed id by no_exit_routing)

unfoldable pub resolve_effective : ExecutionPolicy → TradeAction → Action (Resolved Mode)
resolve_effective policy action = do mode ← effective_mode policy action; pure (goes mode)

-- `_resolveMode`
unfoldable pub resolve_mode :
    ExecutionPolicy → ℕ → ℕ → TradeAction → String → Action (Resolved Mode)
resolve_mode policy id symbol exit by =
    on_option policy.broker_plugin_id (λ broker. resolve_exit_routing id symbol broker by)
      (resolve_effective policy exit)
resolve_mode policy id symbol action by = resolve_effective policy action
