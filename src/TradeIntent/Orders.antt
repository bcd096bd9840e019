-- ===== src/TradeIntent/Orders.antt =====
-- The orders that the processing of an intent in trade-intent.service.ts places at the broker.
use open_neotrader.Base.{
  ℕ, String, ◌≡◌, refl, false, not, ◌&&◌, Option, some, List, inl, inr, Bool-cases, is_some, arith,
  true, ◌⊎◌,
}
use open_neotrader.Number.{Number, nan, zero_num, num_lt}
use open_neotrader.Exec.{◌>>=◌}
use open_neotrader.Exec.Leads.{
  Gives, Gives-Keeps, Gives-pure, Gives-bind, Gives-if, Gives-on_option,
}
use open_neotrader.Common.Kv.{Kv, kv_get, kv_bool}
use open_neotrader.Common.Halt.{halted_key, is_real_execution_halted}
use open_neotrader.Execution.Gate.{is_price}
use open_neotrader.Store.Rows.{TradeAction, PlaceRequest, Outcome}
use open_neotrader.Store.World.{External}
use open_neotrader.Store.Calls.{db_call, kv_read}
use open_neotrader.RealOrder.Single.{Seen, Seen-Stable}
use open_neotrader.TradeIntent.Policy.{ExecutionPolicy}
use open_neotrader.TradeIntent.Mode.{
  Resolved, stopped, goes, stop_failed, is_opening, is_short_action, check_walk_forward_gate,
}
use open_neotrader.TradeIntent.Real.{
  RealAccountState, check_walk_forward, check_account, check_broker,
  check_execute_real_preconditions, side_of_action,
}
use open_neotrader.TradeIntent.Keeps.{Keeps-fail, Keeps-check_walk_forward_gate}

-- An entry is worth no more than the ceiling at a quote of its symbol that was answered, a price.
abbrev pub IsPriced : External → ExecutionPolicy → ℕ → TradeAction → Number → Type 0
IsPriced e policy symbol action qty =
    (is_opening action ≡ false)
    ⊎ ((n : ℕ) × (price : Number) × (e.quote n symbol ≡ some price)
        × (is_price price ≡ true)
        × (num_lt policy.max_order_notional (e.arithmetic.mul qty price) ≡ false))

-- What every order for an intent satisfies: the broker is the configured one; neither the kill-switch
-- nor the ban of short sales forbids the entry; the symbol and the side are the intent's; the quantity
-- is positive or NaN; and an entry is priced.
abbrev pub IsOrderFor :
    External → Kv → ExecutionPolicy → ℕ → TradeAction → ℕ → PlaceRequest → Type 0
IsOrderFor e kv policy symbol action b r =
    (policy.broker_plugin_id ≡ some b)
    × ((is_opening action && kv_bool e.readers (kv_get halted_key kv) false) ≡ false)
    × ((is_short_action action && not policy.allow_real_short) ≡ false)
    × (r.symbol ≡ symbol)
    × (r.side ≡ side_of_action action)
    × ((num_lt zero_num r.qty ≡ true) ⊎ (r.qty ≡ nan))
    × IsPriced e policy symbol action r.qty

-- what the preconditions of an order have checked
abbrev pub IsAllowed : External → Kv → ExecutionPolicy → TradeAction → ℕ → Type 0
IsAllowed e kv policy action b =
    (policy.broker_plugin_id ≡ some b)
    × ((is_opening action && kv_bool e.readers (kv_get halted_key kv) false) ≡ false)
    × ((is_short_action action && not policy.allow_real_short) ≡ false)

-- a property of what a step hands on, if it does not stop
abbrev pub Passes : {A : Type 0} → (A → Type 0) → Resolved A → Type 0
Passes E (stopped t) = Unit
Passes E (goes a) = E a

module _ {e : External} {kv : Kv} {orders : List (ℕ × PlaceRequest)} where
  pub Gives-stop :
      {A : Type 0} {E : A → Type 0} (id : ℕ) (by : String) (o : Outcome)
      → Gives (Seen e kv orders) (Passes E) (stop_failed id by o)
  unfolding stop_failed
  Gives-stop id by o =
      Gives-bind {E = λ _. Unit} _ _ (Gives-Keeps _ (Keeps-fail Seen-Stable id by o) (λ _. tt))
        (λ t _. Gives-pure (stopped t) tt)

  Gives-halted :
      Gives
        (Seen e kv orders)
        (λ b. b ≡ kv_bool e.readers (kv_get halted_key kv) false)
        is_real_execution_halted
  unfolding is_real_execution_halted kv_read db_call ◌>>=◌
  Gives-halted = record {
    at = λ w h. elim (Bool-cases (w.external.db_works w.calls_made)) [
      | inl x ↦ rw x h
      | inr x ↦ rw x h
    ];
    value = λ w h. elim (Bool-cases (w.external.db_works w.calls_made)) [
      | inl x ↦ rw (x, h.0, h.1) refl
      | inr x ↦ rw x tt
    ];
  }

  module _ (id : ℕ) (action : TradeAction) (policy : ExecutionPolicy) (by : String)
      (state : Option RealAccountState) where
    Gives-check_walk_forward :
        (b : ℕ)
        → IsAllowed e kv policy action b
        → Gives
            (Seen e kv orders)
            (Passes (IsAllowed e kv policy action))
            (check_walk_forward id action b by)
    unfolding check_walk_forward
    Gives-check_walk_forward b allowed =
        Gives-if (is_opening action) _ _
          (λ _.
            Gives-bind {E = λ _. Unit} check_walk_forward_gate _
              (Gives-Keeps _ (Keeps-check_walk_forward_gate Seen-Stable) (λ _. tt))
              (λ failure _.
                Gives-on_option failure _ _ (λ f _. Gives-stop id by _)
                  (Gives-pure (goes b) allowed)))
          (λ _. Gives-pure (goes b) allowed)

    Gives-check_account :
        (b : ℕ)
        → policy.broker_plugin_id ≡ some b
        → (is_opening action && kv_bool e.readers (kv_get halted_key kv) false) ≡ false
        → Gives
            (Seen e kv orders)
            (Passes (IsAllowed e kv policy action))
            (check_account id policy action state by b)
    unfolding check_account
    Gives-check_account b set running =
        Gives-if (is_opening action && not (is_some state)) _ _ (λ _. Gives-stop id by _)
          (λ _.
            Gives-if (is_short_action action && not policy.allow_real_short) _ _
              (λ _. Gives-stop id by _) (λ k. Gives-check_walk_forward b (set, running, k)))

    Gives-check_broker :
        (is_opening action && kv_bool e.readers (kv_get halted_key kv) false) ≡ false
        → Gives
            (Seen e kv orders)
            (Passes (IsAllowed e kv policy action))
            (check_broker id policy action state by)
    unfolding check_broker
    Gives-check_broker running =
        Gives-on_option policy.broker_plugin_id _ _ (λ b set. Gives-check_account b set running)
          (Gives-stop id by _)

    pub Gives-preconditions :
        Gives
          (Seen e kv orders)
          (Passes (IsAllowed e kv policy action))
          (check_execute_real_preconditions id policy action state by)
    unfolding check_execute_real_preconditions
    Gives-preconditions =
        Gives-if (is_opening action) _ _
          (λ _. Gives-bind is_real_execution_halted _ Gives-halted (λ halted is.
            Gives-if halted _ _ (λ _. Gives-stop id by _)
              (λ off. Gives-check_broker (ground (arith, is, off)))))
          (λ closing. Gives-check_broker (ground (arith, closing)))
