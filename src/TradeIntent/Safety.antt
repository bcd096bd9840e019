-- ===== src/TradeIntent/Safety.antt =====
-- What the deciding methods of trade-intent.service.ts may do with real money.
use open_neotrader.Base.{
  some_eq, is_yes_fails, ℕ, suc, String, ◌≡◌, ◌≢◌, refl, sym, ◌∙◌, true, Option, some, List, inl,
  inr, Bool-cases, find, is_yes, ◌==◌, arith,
}
use open_neotrader.Number.{Number}
use open_neotrader.Exec.{Exec, intent_not_pending, intent_not_found, err, gets, ◌>>=◌}
use open_neotrader.Exec.Leads.{
  Gives, Gives-on_option, Gives-if, Gives-raise, Gives-pure, Gives-bind, Leads, Leads-given,
  Leads-weaken,
}
use open_neotrader.Common.Kv.{Kv, kv_get}
use open_neotrader.Common.Halt.{IsHalted}
use open_neotrader.Store.Rows.{IntentStatus, TradeIntent, PlaceRequest}
use open_neotrader.Store.World.{External, World, placements}
use open_neotrader.Store.Calls.{db_call, kv_read, read_db}
use open_neotrader.RealOrder.Single.{Seen, OneMore, Seen-Stable, Seen-OneMore}
use open_neotrader.Reconciliation.Portfolio.Sync.{broker_plugin_id_key}
use open_neotrader.TradeIntent.Policy.{
  ExecutionPolicy, RawPolicy, policy_of, read_raw_policy, read_execution_policy,
}
use open_neotrader.TradeIntent.Mode.{is_opening}
use open_neotrader.TradeIntent.Process.{
  IntentStatus-discrete, find_pending, process_intent, route, reject,
}
use open_neotrader.TradeIntent.Orders.{IsOrderFor}
use open_neotrader.TradeIntent.Placing.{Gives-arithmetic, Leads-execute_real}
use open_neotrader.TradeIntent.Routing.{Leads-route}

-- the texts of the policy's keys in a table
abbrev pub raw_of : Kv → RawPolicy
raw_of kv = record {
  autonomous = kv_get "execution.autonomous" kv;
  max_position_pct = kv_get "execution.max_position_pct" kv;
  max_open_positions = kv_get "execution.max_open_positions" kv;
  max_drawdown_halt_pct = kv_get "execution.max_drawdown_halt_pct" kv;
  real = kv_get "execution.real" kv;
  broker_plugin_id = kv_get broker_plugin_id_key kv;
  max_order_notional = kv_get "execution.max_order_notional" kv;
  max_short_notional_pct = kv_get "execution.max_short_notional_pct" kv;
  allow_real_short = kv_get "execution.allow_real_short" kv;
  loss_circuit_breaker_enabled = kv_get "execution.loss_circuit_breaker_enabled" kv;
  max_daily_loss_pct = kv_get "execution.max_daily_loss_pct" kv;
  max_weekly_loss_pct = kv_get "execution.max_weekly_loss_pct" kv;
}

-- the policy that the table holds
abbrev pub stored_policy : External → Kv → ExecutionPolicy
stored_policy e kv = policy_of e.readers e.arithmetic (raw_of kv)

module _ {e : External} {kv : Kv} {orders : List (ℕ × PlaceRequest)} where
  Gives-kv_read : (k : String) → Gives (Seen e kv orders) (λ v. v ≡ kv_get k kv) (kv_read k)
  unfolding kv_read db_call ◌>>=◌
  Gives-kv_read k = record {
    at = λ w h. elim (Bool-cases (w.external.db_works w.calls_made)) [
      | inl x ↦ rw x h
      | inr x ↦ rw x h
    ];
    value = λ w h. elim (Bool-cases (w.external.db_works w.calls_made)) [
      | inl x ↦ rw (x, h.1) refl
      | inr x ↦ rw x tt
    ];
  }

  read_then :
      {T : Type 0} {F : T → Type 0} (k : String) (next : Option String → Exec World T)
      → Gives (Seen e kv orders) F (next (kv_get k kv))
      → Gives (Seen e kv orders) F (kv_read k >>= next)
  read_then k next g = Gives-bind (kv_read k) next (Gives-kv_read k) (λ v is. rw is g)

  Gives-readers : Gives (Seen e kv orders) (λ r. r ≡ e.readers) (gets (λ w. w.external.readers))
  unfolding gets
  Gives-readers = record { at = λ w h. h; value = λ w h. rw h.0 refl }

  Gives-raw : Gives (Seen e kv orders) (λ raw. raw ≡ raw_of kv) read_raw_policy
  unfolding read_raw_policy
  Gives-raw = read_then _ _ (
      read_then _ _ (
        read_then _ _ (
          read_then _ _ (
            read_then _ _ (
              read_then _ _ (
                read_then _ _ (
                  read_then _ _ (
                    read_then _ _
                      (read_then _ _ (read_then _ _ (read_then _ _ (Gives-pure _ refl))))))))))))

  pub Gives-policy :
      Gives (Seen e kv orders) (λ policy. policy ≡ stored_policy e kv) read_execution_policy
  unfolding read_execution_policy
  Gives-policy = Gives-bind (gets (λ w. w.external.readers)) _ Gives-readers (λ r reads.
      Gives-bind (gets (λ w. w.external.arithmetic)) _ Gives-arithmetic (λ a computes.
        Gives-bind read_raw_policy _ Gives-raw
          (λ raw is. Gives-pure _ (rw (reads, computes, is) refl))))

-- What the first step of a deciding method leaves as it is.
abbrev pub Before : External → Kv → List (ℕ × PlaceRequest) → List TradeIntent → World → Type 0
Before e kv orders intents w = Seen e kv orders w × (w.db.intents ≡ intents)

abbrev pub IsPending : ℕ → List TradeIntent → TradeIntent → Type 0
IsPending id intents t =
    (find (λ i. i.id == id) intents ≡ some t)
    × (is_yes (IntentStatus-discrete t.status IntentStatus.pending) ≡ true)

module _ {e : External} {kv : Kv} {orders : List (ℕ × PlaceRequest)}
    {intents : List TradeIntent} where
  Gives-row :
      (id : ℕ)
      → Gives
          (Before e kv orders intents)
          (λ row. row ≡ find (λ i. i.id == id) intents)
          (read_db (λ db. find (λ i. i.id == id) db.intents))
  unfolding read_db db_call ◌>>=◌
  Gives-row id = record {
    at = λ w h. elim (Bool-cases (w.external.db_works w.calls_made)) [
      | inl x ↦ rw x h
      | inr x ↦ rw x h
    ];
    value = λ w h. elim (Bool-cases (w.external.db_works w.calls_made)) [
      | inl x ↦ rw (x, h.1) refl
      | inr x ↦ rw x tt
    ];
  }

  pub Gives-find_pending :
      (id : ℕ) → Gives (Before e kv orders intents) (IsPending id intents) (find_pending id)
  unfolding find_pending
  Gives-find_pending id =
      Gives-bind (read_db (λ db. find (λ i. i.id == id) db.intents)) _ (Gives-row id) (λ row is.
        Gives-on_option row _ _
          (λ t has.
            Gives-if (is_yes (IntentStatus-discrete t.status IntentStatus.pending)) _ _
              (λ waits. Gives-pure t (sym is ∙ has, waits)) (λ _. Gives-raise intent_not_pending))
          (Gives-raise intent_not_found))

Leads-route_of :
    {e : External} {kv : Kv} {orders : List (ℕ × PlaceRequest)} (by : String)
    (sizing : ExecutionPolicy → Number) (id : ℕ) (t : TradeIntent)
    → Leads
        (Seen e kv orders)
        (OneMore orders (IsOrderFor e kv (stored_policy e kv) t.symbol t.action))
        (do policy ← read_execution_policy; route id t.symbol by policy (sizing policy) t.action)
Leads-route_of {e} {kv} by sizing id t =
    Leads-given read_execution_policy _ Seen-OneMore Gives-policy (λ policy is. rw is (
      Leads-route Seen-Stable Seen-OneMore id t.symbol by (stored_policy e kv)
        (sizing (stored_policy e kv)) t.action
        (λ state.
          Leads-execute_real id t.symbol (stored_policy e kv) by (sizing (stored_policy e kv)) state
            t.action)))

process_intent-Leads :
    (by : String) (sizing : ExecutionPolicy → Number) (id : ℕ) (w : World) {t : TradeIntent}
    → find (λ i. i.id == id) w.db.intents ≡ some t
    → Leads
        (Before w.external w.db.kv (placements w.told) w.db.intents)
        (OneMore
          (placements w.told)
          (IsOrderFor w.external w.db.kv (stored_policy w.external w.db.kv) t.symbol t.action))
        (process_intent by sizing id)
unfolding process_intent
process_intent-Leads by sizing id w {t} found =
    Leads-given (find_pending id) _ (λ v h. Seen-OneMore v h.0) (Gives-find_pending id)
      (λ row pending.
        Leads-weaken _ (λ v h. h.0)
          (rw (some_eq (sym pending.0 ∙ found)) (Leads-route_of by sizing id t)))

-- One decision places one order at most, and the right one: whatever is answered, the processing of an
-- intent that is in the table leaves the orders that the broker was asked to place as they were, or adds
-- one that satisfies `IsOrderFor` for the intent's symbol and action, under the policy that the key-value
-- table holds. So it goes to the configured broker, its side is the action's and its quantity is positive
-- or NaN, no entry is placed under the kill-switch, no short sale where it is not allowed, and an entry
-- is worth no more than the policy's ceiling at a quote of the symbol that was answered, a finite
-- positive price.
pub process_intent-OneMore :
    (by : String) (sizing : ExecutionPolicy → Number) (id : ℕ) (w : World) {t : TradeIntent}
    → find (λ i. i.id == id) w.db.intents ≡ some t
    → OneMore
        (placements w.told)
        (IsOrderFor w.external w.db.kv (stored_policy w.external w.db.kv) t.symbol t.action)
        (process_intent by sizing id w).1
process_intent-OneMore by sizing id w found =
    (process_intent-Leads by sizing id w found).at w ((refl, refl, refl), refl)

-- The kill-switch stops every entry: where it reads as set, the processing of a `long` or a `short`
-- places no order, whatever is answered.
pub process_halted_entry :
    (by : String) (sizing : ExecutionPolicy → Number) (id : ℕ) (w : World) {t : TradeIntent}
    → find (λ i. i.id == id) w.db.intents ≡ some t
    → is_opening t.action ≡ true
    → IsHalted w
    → placements (process_intent by sizing id w).1.told ≡ placements w.told
process_halted_entry by sizing id w found opening halted =
    elim (process_intent-OneMore by sizing id w found) [
      | inl same ↦ same
      | inr (b, r, more, good) ↦ ground (arith, good.1, opening, halted)
    ]

-- An intent is decided once: where the database works and the intent is no longer pending, processing
-- it and rejecting it throw, and change nothing.
pub decided_once :
    (by reason : String) (sizing : ExecutionPolicy → Number) (id : ℕ) (w : World) {t : TradeIntent}
    → w.external.db_works w.calls_made ≡ true
    → find (λ i. i.id == id) w.db.intents ≡ some t
    → t.status ≢ IntentStatus.pending
    → let after = record w { calls_made = suc w.calls_made } in
      (process_intent by sizing id w ≡ (err intent_not_pending, after))
      × (reject id by reason w ≡ (err intent_not_pending, after))
unfolding process_intent reject find_pending read_db db_call ◌>>=◌
decided_once by reason sizing id w {t} works found decided =
    rw (works, found, is_yes_fails (IntentStatus-discrete t.status IntentStatus.pending) decided)
      (refl, refl)
