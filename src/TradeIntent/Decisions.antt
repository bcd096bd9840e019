-- ===== src/TradeIntent/Decisions.antt =====
-- The decisions of trade-intent.service.ts against the state machine of an intent.
use open_neotrader.Base.{ℕ, String, ◌≡◌, refl, Option, some}
use open_neotrader.Number.{Number}
use open_neotrader.Exec.{pure, ◌>>=◌}
use open_neotrader.Exec.Returns.{
  Returns, returns_rules, Returns-pure, Returns-raise, Returns-bind, Returns-given, Returns-if,
  Returns-on_option,
}
use open_neotrader.Store.Rows.{
  IntentStatus, TradeAction, long, short, exit, hold, TradeIntent, Outcome, Side, RealOrder,
  Refusal,
}
use open_neotrader.Store.World.{World, Action}
use open_neotrader.Store.Calls.{change_intent}
use open_neotrader.TradeIntent.Policy.{ExecutionPolicy}
use open_neotrader.TradeIntent.Mode.{
  Resolved, stopped, goes, decide, fail, stop_failed, resolve_exit_routing, resolve_effective,
  resolve_mode,
}
use open_neotrader.TradeIntent.Real.{
  RealAccountState, check_walk_forward, check_account, check_broker,
  check_execute_real_preconditions, resolve_real_exit_qty, size_entry, resolve_real_side_and_qty,
  record_submission, unless_stopped, record_no_change,
}
use open_neotrader.TradeIntent.Process.{reject_by_gate}

-- The life of an intent: from pending it goes to one decision. What an order comes to later is decided
-- by the reconciliation.
pub data Transition : IntentStatus → IntentStatus → Type 0 where
  fails : Transition IntentStatus.pending IntentStatus.failed
  executes : Transition IntentStatus.pending IntentStatus.executed
  refuses : Transition IntentStatus.pending IntentStatus.rejected_intent
  skips : Transition IntentStatus.pending IntentStatus.skipped
  submits : Transition IntentStatus.pending IntentStatus.real_pending

-- a decision by someone on an intent that was pending
abbrev pub IsDecision : String → TradeIntent → Type 0
IsDecision by t = (t.decided_by ≡ some by) × Transition IntentStatus.pending t.status

-- the row with which a step stopped
abbrev Stops : {A : Type 0} → String → Resolved A → Type 0
Stops by (stopped t) = IsDecision by t
Stops by (goes a) = Unit

module _ (by : String) where
  pub Returns-decide :
      (id : ℕ) (f : TradeIntent → TradeIntent)
      → ((t : TradeIntent) → t.decided_by ≡ some by → IsDecision by (f t))
      → Returns (IsDecision by) (decide id by f)
  unfolding decide change_intent
  Returns-decide id f h = Returns-bind _ _ (λ time. Returns-bind _ _ (λ _. Returns-bind _ _ (λ rows.
      Returns-on_option _ _ _ (λ t. Returns-bind _ _ (λ _. Returns-pure _ (h _ refl)))
        (Returns-raise _))))

  pub Returns-fail : (id : ℕ) (o : Outcome) → Returns (IsDecision by) (fail id by o)
  unfolding fail
  Returns-fail id o = Returns-decide id _ (λ t d. (d, fails))

  Returns-stop :
      {A : Type 0} (id : ℕ) (o : Outcome) → Returns (Stops by) (stop_failed {A = A} id by o)
  unfolding stop_failed
  Returns-stop id o =
      Returns-given _ _ (Returns-fail id o) (λ t decided. Returns-pure (stopped t) decided)

  Returns-goes : {A : Type 0} (a : A) → Returns {W = World} (Stops by) (pure (goes a))
  Returns-goes a = Returns-pure (goes a) tt

  ruleset stop_rules = (returns_rules, Returns-stop, Returns-goes)

  pub Returns-resolve_mode :
      (p : ExecutionPolicy) (id symbol : ℕ) (a : TradeAction)
      → Returns (Stops by) (resolve_mode p id symbol a by)
  unfolding resolve_mode resolve_exit_routing resolve_effective
  Returns-resolve_mode p id symbol exit = search stop_rules depth 14
  Returns-resolve_mode p id symbol long = search stop_rules depth 14
  Returns-resolve_mode p id symbol short = search stop_rules depth 14
  Returns-resolve_mode p id symbol hold = search stop_rules depth 14

  pub Returns-preconditions :
      (id : ℕ) (p : ExecutionPolicy) (a : TradeAction) (state : Option RealAccountState)
      → Returns (Stops by) (check_execute_real_preconditions id p a state by)
  unfolding check_execute_real_preconditions check_broker check_account check_walk_forward
  Returns-preconditions id p a state = search stop_rules depth 24

  pub Returns-side_and_qty :
      (id symbol : ℕ) (a : TradeAction) (p : ExecutionPolicy) (b : ℕ)
      (state : Option RealAccountState) (price n : Number)
      → Returns (Stops by) (resolve_real_side_and_qty id symbol a p b state price n by)
  unfolding resolve_real_side_and_qty resolve_real_exit_qty size_entry
  Returns-side_and_qty id symbol exit p b state price n = search stop_rules depth 14
  Returns-side_and_qty id symbol long p b state price n = search stop_rules depth 14
  Returns-side_and_qty id symbol short p b state price n = search stop_rules depth 14
  Returns-side_and_qty id symbol hold p b state price n = search stop_rules depth 14

  -- a step that may stop, and what comes after it
  pub Returns-unless :
      {A : Type 0} (run : Action (Resolved A)) (next : A → Action TradeIntent)
      → Returns (Stops by) run
      → ((a : A) → Returns (IsDecision by) (next a))
      → Returns (IsDecision by) (run >>= λ r. unless_stopped r next)
  unfolding unless_stopped
  Returns-unless run next known follows = Returns-given run _ known (λ r stops.
      elim r as (λ r. Stops by r → Returns (IsDecision by) (unless_stopped r next)) [
        | stopped t ↦ λ decided. Returns-pure t decided
        | goes a ↦ λ _. follows a
      ]
        stops)

  pub Returns-record_no_change : (id : ℕ) → Returns (IsDecision by) (record_no_change id by)
  unfolding record_no_change
  Returns-record_no_change id = Returns-decide id _ (λ t d. (d, executes))

  pub Returns-reject_by_gate :
      (id : ℕ) (r : Refusal) → Returns (IsDecision by) (reject_by_gate id by r)
  unfolding reject_by_gate
  Returns-reject_by_gate id r = Returns-decide id _ (λ t d. (d, refuses))

  pub Returns-record_submission :
      (id : ℕ) (side : Side) (qty : Number) (r : RealOrder)
      → Returns (IsDecision by) (record_submission id by side qty r)
  unfolding record_submission
  Returns-record_submission id side qty r =
      Returns-if _ _ _ (Returns-fail id _) (Returns-decide id _ (λ t d. (d, submits)))
