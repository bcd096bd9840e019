-- ===== src/Tests/Intents.antt =====
-- Intents that are recorded, decided and executed.
use open_neotrader.Base.{ℕ, ◌≡◌, refl, true, false, none, some, [], ◌∷◌}
use open_neotrader.Number.{zero_num, num_of}
use open_neotrader.Exec.{intent_not_pending, ok, err}
use open_neotrader.Exec.Leads.{Yields}
use open_neotrader.Common.Kv.{Kv, kv_str, kv_bool}
use open_neotrader.Common.Halt.{halted_key, IsHalted}
use open_neotrader.Store.Rows.{
  IntentStatus, TradeAction, exit, long, TradeIntent, duplicate_of, no_exit_routing,
}
use open_neotrader.Store.Index.{index_holds, compatible_all}
use open_neotrader.Store.World.{World, placements, placed_ids}
use open_neotrader.RealOrder.Single.{OneMore}
use open_neotrader.Reconciliation.Portfolio.Sync.{broker_plugin_id_key}
use open_neotrader.TradeIntent.Policy.{PolicyPatch, policy_of, ExecutionPolicy}
use open_neotrader.TradeIntent.Process.{process_intent, reject}
use open_neotrader.TradeIntent.Record.{IntentDto, record_intent, is_confidence, is_same_in_cycle}
use open_neotrader.TradeIntent.Orders.{IsOrderFor}
use open_neotrader.TradeIntent.Safety.{
  raw_of, stored_policy, process_intent-OneMore, process_halted_entry, decided_once,
}
use open_neotrader.TradeIntent.Decisions.{Transition}
use open_neotrader.TradeIntent.Refines.{decisions_refine}
use open_neotrader.TradeIntent.Bounds.{IsInRange, policy_of-IsInRange}
use open_neotrader.TradeIntent.Exits.{exit_reaches_broker, exit_unknown_position}
use open_neotrader.TradeIntent.Recording.{record_duplicate-told}
use open_neotrader.Tests.{world_of, external, external_works, first_number, intent}

abbrev pub dto : IntentDto
dto = record { cycle_id = some 3; symbol = 5; action = "exit"; confidence = zero_num }

abbrev pub patch : PolicyPatch
patch = record {
  autonomous = some false;
  real = some true;
  broker_plugin_id = some "broker";
  max_position_pct = none;
  max_open_positions = none;
  max_drawdown_halt_pct = none;
  max_order_notional = none;
  max_short_notional_pct = none;
  allow_real_short = none;
  loss_circuit_breaker_enabled = none;
  max_daily_loss_pct = none;
  max_weekly_loss_pct = none;
}

-- a pending intent of cycle 3 for symbol 5
abbrev pending_intent : TradeAction → TradeIntent
pending_intent action = record intent {
  cycle_id = some 3;
  action = action;
  status = IntentStatus.pending;
}

-- the world whose only intent is given, and the settings
abbrev intent_world : TradeIntent → Kv → World
intent_world t kv =
    let w = world_of [] in record w { db = record w.db { intents = t ∷ []; kv = kv } }

abbrev with_broker : Kv
with_broker = (broker_plugin_id_key, "broker") ∷ []

abbrev whole_fraction : ExecutionPolicy → open_neotrader.Number.Number
whole_fraction policy = policy.max_position_pct

abbrev exit_world : World
exit_world = intent_world (pending_intent exit) with_broker

process_intent-OneMore_example :
    OneMore []
      (IsOrderFor external with_broker (stored_policy external with_broker) 5 exit)
      (process_intent "autonomous" whole_fraction 1 exit_world).1
process_intent-OneMore_example =
    process_intent-OneMore "autonomous" whole_fraction 1 exit_world refl

abbrev halted_entry : World
halted_entry = intent_world (pending_intent long) ((halted_key, "true") ∷ with_broker)

halted_entry-IsHalted : IsHalted halted_entry
unfolding kv_bool
halted_entry-IsHalted = refl

process_halted_entry_example :
    placements (process_intent "operator" whole_fraction 1 halted_entry).1.told ≡ []
process_halted_entry_example =
    process_halted_entry "operator" whole_fraction 1 halted_entry refl refl halted_entry-IsHalted

abbrev decided_world : World
decided_world = intent_world (record intent { status = IntentStatus.executed }) []

decided_once_example :
    let after = record decided_world { calls_made = 1 } in
    (process_intent "operator" whole_fraction 1 decided_world ≡ (err intent_not_pending, after))
    × (reject 1 "operator" "late" decided_world ≡ (err intent_not_pending, after))
decided_once_example =
    decided_once "operator" "late" whole_fraction 1 decided_world refl refl (λ e. cc)

decisions_refine_example :
    let decided = λ (row : TradeIntent).
      (row.decided_by ≡ some "operator") × Transition IntentStatus.pending row.status in
    Yields decided (process_intent "operator" whole_fraction 1 exit_world).0
    × Yields decided (reject 1 "operator" "late" exit_world).0
decisions_refine_example = decisions_refine "operator" "late" whole_fraction 1 exit_world refl

policy_of-IsInRange_example :
    IsInRange (policy_of external.readers first_number (raw_of with_broker))
policy_of-IsInRange_example = policy_of-IsInRange external.readers first_number (raw_of with_broker)

exit_reaches_broker_example :
    (c : ℕ) × (placed_ids (process_intent "autonomous" whole_fraction 1 exit_world).1.told ≡ c ∷ [])
unfolding policy_of kv_str index_holds compatible_all
exit_reaches_broker_example =
    exit_reaches_broker "autonomous" whole_fraction 1 exit_world external_works refl refl refl refl
      (λ n. refl) refl refl tt tt (λ n. refl)

-- the same world with a broker that does not answer
abbrev silent_world : World
silent_world = record exit_world { external = record external { portfolio = λ _ _. none } }

exit_unknown_position_example :
    let after = process_intent "autonomous" whole_fraction 1 silent_world in
    (after.1.told ≡ [])
    × (after.1.db.paper ≡ none)
    × ((time : ℕ) × (after.0
          ≡ ok (record (pending_intent exit) {
            status = IntentStatus.failed;
            outcome = some no_exit_routing;
            decided_at = some time;
            decided_by = some "autonomous";
          })))
unfolding policy_of kv_str
exit_unknown_position_example =
    exit_unknown_position "autonomous" whole_fraction 1 silent_world external_works refl refl refl
      refl (λ n. refl)

record_duplicate-told_example :
    let after = record_intent dto exit_world in
    (after.1.told ≡ [])
    × (after.1.db.paper ≡ none)
    × ((row : TradeIntent) × (after.0 ≡ ok row)
        × (after.1.db.intents ≡ pending_intent exit ∷ row ∷ [])
        × (row.status ≡ IntentStatus.duplicate)
        × (row.outcome ≡ some (duplicate_of 1)))
unfolding is_confidence num_of is_same_in_cycle
record_duplicate-told_example =
    record_duplicate-told dto exit_world {prior = pending_intent exit} external_works refl refl refl
      refl

abbrev manual_world : World
manual_world = intent_world (pending_intent exit) (("execution.autonomous", "false") ∷ [])
