-- ===== src/TradeIntent/Placing.antt =====
-- From the preconditions of trade-intent.service.ts to the one order that `_executeReal` may place.
use open_neotrader.Base.{
  if◌then◌else◌, ℕ, String, ◌≡◌, refl, false, not, ◌&&◌, Option, List, is_yes,
}
use open_neotrader.Number.{Number, zero_num, num_lt, num_le, is_finite}
use open_neotrader.Exec.{Result, gets, attempt, ◌>>=◌, on_option}
use open_neotrader.Exec.Keeps.{
  Keeps, Keeps-gets, Keeps-pure, Keeps-attempt, Keeps-if, Keeps-on_result,
}
use open_neotrader.Exec.Leads.{
  Gives, Gives-Keeps, Gives-pure, Gives-bind, Gives-if, Gives-on_option, Gives-on_result, Yields,
  Gives-attempt, Leads, Leads-Keeps, Leads-attempt, Leads-if, Leads-given, Leads-bind, Leads-then,
}
use open_neotrader.Common.Kv.{Kv}
use open_neotrader.Execution.Gate.{is_price}
use open_neotrader.Store.Rows.{
  no_account_state, bad_quote, TradeAction, long, short, exit, hold, Side, sell, PlaceRequest,
  RealOrder, Status, Status-discrete,
}
use open_neotrader.Store.World.{External, World}
use open_neotrader.Store.Calls.{get_portfolio, get_quote}
use open_neotrader.Store.Calls.Footprint.{Stable, Keeps-get_portfolio, Keeps-get_quote}
use open_neotrader.RealOrder.Submit.{request_of}
use open_neotrader.RealOrder.Single.{
  Seen, OneMore, Seen-Stable, OneMore-Stable, Seen-OneMore, Leads-submit,
}
use open_neotrader.TradeIntent.Policy.{ExecutionPolicy}
use open_neotrader.TradeIntent.Mode.{
  fail, stop_failed, Resolved, stopped, goes, is_opening, position_of,
}
use open_neotrader.TradeIntent.Real.{
  RealAccountState, exit_qty, resolve_real_exit_qty, side_of_action, size_entry,
  resolve_real_side_and_qty, args_of, record_submission, submit_and_record, check_and_submit,
  unless_stopped, execute_at_broker, execute_real, price_or_nan,
}
use open_neotrader.TradeIntent.Keeps.{Keeps-decide, Keeps-fail, Keeps-record_no_change}
use open_neotrader.TradeIntent.Quotes.{
  IsQuote, HasPrice, quoted-IsQuote, price_or_nan-HasPrice, HasPrice-IsPriced, num_le-above,
}
use open_neotrader.TradeIntent.Orders.{
  IsOrderFor, IsAllowed, Passes, Gives-stop, Gives-preconditions,
}

-- the side that goes with a quantity
abbrev HasSide : TradeAction → Side × Number → Type 0
HasSide action (side, qty) = side ≡ side_of_action action

pub Keeps-record_submission :
    {P : World → Type 0} (s : Stable P) (id : ℕ) (by : String) (side : Side) (qty : Number)
    (r : RealOrder)
    → Keeps P (record_submission id by side qty r)
unfolding record_submission
Keeps-record_submission s id by side qty r =
    Keeps-if (is_yes (Status-discrete r.status Status.submit_failed)) _ _ (Keeps-fail s id by _)
      (Keeps-decide s id by _)

side-request_of :
    (id b symbol : ℕ) (action : TradeAction) (qty : Number) (c : ℕ)
    → (request_of (args_of id b symbol (side_of_action action) qty) c).side ≡ side_of_action action
unfolding request_of
side-request_of id b symbol long qty c = refl
side-request_of id b symbol short qty c = refl
side-request_of id b symbol exit qty c = refl
side-request_of id b symbol hold qty c = refl

module _ {e : External} {kv : Kv} {orders : List (ℕ × PlaceRequest)} where
  module _ (id symbol : ℕ) (by : String) where
    Gives-exit_qty :
        (b : ℕ)
        → Gives (Seen e kv orders) (Passes (HasSide exit)) (resolve_real_exit_qty id symbol b by)
    unfolding resolve_real_exit_qty
    Gives-exit_qty b =
        Gives-bind {E = λ _. Unit} (attempt (get_portfolio b)) _
          (Gives-Keeps _ (Keeps-attempt _ (Keeps-get_portfolio Seen-Stable b)) (λ _. tt))
          (λ fetched _.
            Gives-on_result fetched _ _
              (λ p.
                Gives-on_option (exit_qty (position_of symbol p.positions)) _ _
                  (λ qty _. Gives-pure (goes (sell, qty)) refl) (Gives-stop id by _))
              (λ _. Gives-stop id by _))

  module _ (id : ℕ) (action : TradeAction) (policy : ExecutionPolicy) (by : String)
      (sizing_pct : Number) (state : Option RealAccountState) where
    Gives-entry :
        (price : Number)
        → Gives (Seen e kv orders) (Passes (HasSide action)) (
            on_option state
              (size_entry id action policy by price sizing_pct)
              (stop_failed id by no_account_state))
    unfolding size_entry
    Gives-entry price =
        Gives-on_option state _ _
          (λ s _.
            Gives-bind {E = λ _. Unit} (gets (λ w. w.external.arithmetic)) _
              (Gives-Keeps _ (Keeps-gets _) (λ _. tt))
              (λ a _.
                Gives-if (is_finite s.equity && is_finite s.buying_power) _ _
                  (λ _. Gives-pure _ refl) (λ _. Gives-stop id by _)))
          (Gives-stop id by _)

  Gives-side :
      (id symbol : ℕ) (action : TradeAction) (policy : ExecutionPolicy) (by : String)
      (sizing_pct : Number) (state : Option RealAccountState) (b : ℕ) (price : Number)
      → Gives
          (Seen e kv orders)
          (Passes (HasSide action))
          (resolve_real_side_and_qty id symbol action policy b state price sizing_pct by)
  unfolding resolve_real_side_and_qty
  Gives-side id symbol exit policy by n state b price = Gives-exit_qty id symbol by b
  Gives-side id symbol long policy by n state b price = Gives-entry id long policy by n state price
  Gives-side id symbol short policy by n state b price =
      Gives-entry id short policy by n state price
  Gives-side id symbol hold policy by n state b price = Gives-entry id hold policy by n state price

  Gives-get_quote : (symbol : ℕ) → Gives (Seen e kv orders) (IsQuote e symbol) (get_quote symbol)
  unfolding get_quote
  Gives-get_quote symbol = record {
    at = (Keeps-get_quote Seen-Stable symbol).at;
    value = λ w h. quoted-IsQuote e w.external w.calls_made symbol h.0;
  }

  -- the arithmetic that a step reads
  pub Gives-arithmetic :
      Gives (Seen e kv orders) (λ a. a ≡ e.arithmetic) (gets (λ w. w.external.arithmetic))
  unfolding gets
  Gives-arithmetic = record { at = λ w h. h; value = λ w h. rw h.0 refl }

  module _ (id symbol : ℕ) (action : TradeAction) (policy : ExecutionPolicy) (by : String) (b : ℕ)
      (price : Number) (allowed : IsAllowed e kv policy action b)
      (priced : HasPrice e symbol action price) where
    Leads-submit_and_record :
        (side : Side) (qty : Number)
        → side ≡ side_of_action action
        → num_le qty zero_num ≡ false
        → (is_opening action && num_lt policy.max_order_notional (e.arithmetic.mul qty price))
          ≡ false
        → Leads
            (Seen e kv orders)
            (OneMore orders (IsOrderFor e kv policy symbol action))
            (submit_and_record id b symbol by side qty)
    unfolding submit_and_record request_of
    Leads-submit_and_record side qty same positive within =
        Leads-then _ _
          (Leads-attempt _ (
            Leads-submit (args_of id b symbol side qty) (λ c. (
              allowed.0,
              allowed.1,
              allowed.2,
              refl,
              rw same (side-request_of id b symbol action qty c),
              num_le-above qty positive,
              HasPrice-IsPriced e policy symbol action price qty priced within,
            ))))
          (λ submission.
            Keeps-on_result submission _ _ (Keeps-record_submission OneMore-Stable id by side qty)
              (λ _. Keeps-fail OneMore-Stable id by _))

    Leads-check_and_submit :
        (sized : Side × Number)
        → HasSide action sized
        → Leads
            (Seen e kv orders)
            (OneMore orders (IsOrderFor e kv policy symbol action))
            (check_and_submit id b symbol action policy price by sized)
    unfolding check_and_submit
    Leads-check_and_submit (side, qty) same =
        Leads-given (gets (λ w. w.external.arithmetic)) _ Seen-OneMore Gives-arithmetic (λ a is.
          Leads-if (num_le qty zero_num) _ _
            (λ _. Leads-Keeps _ Seen-OneMore (Keeps-fail Seen-Stable id by _))
            (λ positive.
              Leads-if (is_opening action && num_lt policy.max_order_notional (a.mul qty price)) _ _
                (λ _. Leads-Keeps _ Seen-OneMore (Keeps-fail Seen-Stable id by _))
                (λ within. Leads-submit_and_record side qty same positive (rw is at within))))

    Leads-unless_stopped :
        (resolved : Resolved (Side × Number))
        → Passes (HasSide action) resolved
        → Leads
            (Seen e kv orders)
            (OneMore orders (IsOrderFor e kv policy symbol action))
            (unless_stopped resolved (check_and_submit id b symbol action policy price by))
    unfolding unless_stopped
    Leads-unless_stopped (stopped t) same = Leads-Keeps _ Seen-OneMore (Keeps-pure t)
    Leads-unless_stopped (goes sized) same = Leads-check_and_submit sized same

  module _ (id symbol : ℕ) (policy : ExecutionPolicy) (by : String) (sizing_pct : Number)
      (state : Option RealAccountState) where
    Leads-sized :
        (action : TradeAction) (b : ℕ) (quote : Result Number)
        → Yields (IsQuote e symbol) quote
        → IsAllowed e kv policy action b
        → Leads (Seen e kv orders) (OneMore orders (IsOrderFor e kv policy symbol action)) (
            let price = price_or_nan quote in
            if is_opening action && not (is_price price) then fail id by bad_quote else (do
              sized ← resolve_real_side_and_qty id symbol action policy b state price sizing_pct by
              unless_stopped sized (check_and_submit id b symbol action policy price by)))
    Leads-sized action b quote from allowed =
        let price = price_or_nan quote in
        Leads-if (is_opening action && not (is_price price)) _ _
          (λ _. Leads-Keeps _ Seen-OneMore (Keeps-fail Seen-Stable id by _))
          (λ checked.
            let priced = price_or_nan-HasPrice e symbol action quote from checked in
            Leads-given _ _ Seen-OneMore
              (Gives-side id symbol action policy by sizing_pct state b price)
              (Leads-unless_stopped id symbol action policy by b price allowed priced))

    Leads-execute_at_broker :
        (action : TradeAction) (b : ℕ)
        → IsAllowed e kv policy action b
        → Leads
            (Seen e kv orders)
            (OneMore orders (IsOrderFor e kv policy symbol action))
            (execute_at_broker id symbol action policy state by sizing_pct b)
    unfolding execute_at_broker
    Leads-execute_at_broker hold b allowed =
        Leads-bind _ _ Seen-OneMore (Keeps-attempt _ (Keeps-get_quote Seen-Stable symbol))
          (λ quote. Leads-Keeps _ Seen-OneMore (Keeps-record_no_change Seen-Stable id by))
    Leads-execute_at_broker long b allowed =
        Leads-given _ _ Seen-OneMore (Gives-attempt _ (Gives-get_quote symbol))
          (λ quote from. Leads-sized long b quote from allowed)
    Leads-execute_at_broker short b allowed =
        Leads-given _ _ Seen-OneMore (Gives-attempt _ (Gives-get_quote symbol))
          (λ quote from. Leads-sized short b quote from allowed)
    Leads-execute_at_broker exit b allowed =
        Leads-given _ _ Seen-OneMore (Gives-attempt _ (Gives-get_quote symbol))
          (λ quote from. Leads-sized exit b quote from allowed)

    placed_if_passed :
        (action : TradeAction) (checked : Resolved ℕ)
        → Passes (IsAllowed e kv policy action) checked
        → Leads
            (Seen e kv orders)
            (OneMore orders (IsOrderFor e kv policy symbol action))
            (unless_stopped checked (execute_at_broker id symbol action policy state by sizing_pct))
    unfolding unless_stopped
    placed_if_passed action (stopped t) passes = Leads-Keeps _ Seen-OneMore (Keeps-pure t)
    placed_if_passed action (goes b) passes = Leads-execute_at_broker action b passes

    pub Leads-execute_real :
        (action : TradeAction)
        → Leads
            (Seen e kv orders)
            (OneMore orders (IsOrderFor e kv policy symbol action))
            (execute_real id symbol action policy state by sizing_pct)
    unfolding execute_real
    Leads-execute_real action =
        Leads-given _ _ Seen-OneMore (Gives-preconditions id action policy by state)
          (placed_if_passed action)
