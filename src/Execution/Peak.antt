-- ===== src/Execution/Peak.antt =====
-- The account's peak, and the narrow rebalance trade, of governed-paper-execution.service.ts.
use open_neotrader.Base.{
  ℕ, ◌≡◌, refl, false, ◌||◌, Option, none, some, find, Bool-cases, Option-cases, inl, inr,
}
use open_neotrader.Number.{Number, num_lt, num_le, num_min, num_max_upper, zero_num}
use open_neotrader.Store.Rows.{TradeAction, long, short, exit, hold, Side, buy, sell, other_side}
use open_neotrader.Execution.Account.{Arithmetic, GovernedPosition, Account, base_hwm, is_of}
use open_neotrader.Execution.Fill.{
  revalued, unfilled, is_short, is_long, fill_long, fill_short, execute_long, execute_short,
  execute_exit, execute_fill,
}
use open_neotrader.Execution.Entry.{
  rebalance_buy, rebalance_sell, rebalance_trade, apply_rebalance_trade,
}
use open_neotrader.Execution.Closing.{
  others, others-update_first, others-remove_first, others-add_long,
}

-- the peak after is not below the peak before
abbrev pub PeakKept : Account → Account → Type 0
PeakKept before after = num_lt (base_hwm after) (base_hwm before) ≡ false

module _ (a : Arithmetic) where
  fill_long-PeakKept :
      (quantity : Number) (symbol : ℕ) (price : Number) (state : Account) (commission : Number)
      → PeakKept state (fill_long a quantity symbol price state commission).new_state
  unfolding fill_long unfilled revalued
  fill_long-PeakKept quantity symbol price state commission =
      elim (Bool-cases (num_le quantity zero_num)) [
        | inl e ↦ rw e (num_max_upper (base_hwm state) _).0
        | inr e ↦ rw e (num_max_upper (base_hwm state) _).0
      ]

  fill_short-PeakKept :
      (quantity : Number) (symbol : ℕ) (price : Number) (state : Account) (commission : Number)
      → PeakKept state (fill_short a quantity symbol price state commission).new_state
  unfolding fill_short unfilled revalued
  fill_short-PeakKept quantity symbol price state commission =
      elim (Bool-cases (num_le quantity zero_num)) [
        | inl e ↦ rw e (num_max_upper (base_hwm state) _).0
        | inr e ↦ rw e (num_max_upper (base_hwm state) _).0
      ]

-- The peak never falls in a fill: after any action the account's peak does not compare below what it
-- was before, whatever the rounding and the price.
pub execute_fill-PeakKept :
    (a : Arithmetic) (action : TradeAction) (symbol : ℕ) (price : Number) (state : Account)
    (sizing max_position max_short commission : Number)
    → PeakKept state
        (execute_fill a action symbol price state sizing max_position max_short
          commission).new_state
unfolding execute_fill execute_long execute_short execute_exit unfilled revalued
execute_fill-PeakKept a long symbol price state sizing max_position max_short commission =
    elim (Bool-cases (is_short a (find (is_of symbol) state.positions))) [
      | inl e ↦ rw e (num_max_upper (base_hwm state) state.equity).0
      | inr e ↦ rw e (fill_long-PeakKept a _ symbol price state commission)
    ]
execute_fill-PeakKept a short symbol price state sizing max_position max_short commission =
    elim (Bool-cases (is_long a (find (is_of symbol) state.positions))) [
      | inl e ↦ rw e (num_max_upper (base_hwm state) state.equity).0
      | inr e ↦ rw e (fill_short-PeakKept a _ symbol price state commission)
    ]
execute_fill-PeakKept a exit symbol price state sizing max_position max_short commission =
    elim (Option-cases (find (is_of symbol) state.positions)) [
      | inl e ↦ rw e (num_max_upper (base_hwm state) state.equity).0
      | inr (p, e) ↦ rw e (num_max_upper (base_hwm state) _).0
    ]
execute_fill-PeakKept a hold symbol price state sizing max_position max_short commission =
    (num_max_upper (base_hwm state) state.equity).0

module _ (a : Arithmetic) where
  buy-others :
      (symbol : ℕ) (quantity price : Number) (state : Account) (commission : Number)
      → others symbol (rebalance_buy a symbol quantity price state commission).0.positions
        ≡ others symbol state.positions
  unfolding rebalance_buy revalued
  buy-others symbol quantity price state commission =
      let notional = a.mul price quantity in
      elim (Bool-cases (num_lt state.cash (a.add notional (a.mul notional commission)))) [
        | inl e ↦ rw e refl
        | inr e ↦ rw e (others-add_long a (find (is_of symbol) state.positions) symbol _ _ _)
      ]

  sell-others :
      (held : Option GovernedPosition) (symbol : ℕ) (quantity price : Number) (state : Account)
      (commission : Number)
      → others symbol (rebalance_sell a held symbol quantity price state commission).0.positions
        ≡ others symbol state.positions
  unfolding rebalance_sell revalued
  sell-others none symbol quantity price state commission = refl
  sell-others (some p) symbol quantity price state commission =
      let left = a.sub p.quantity (num_min quantity p.quantity) in
      elim (Bool-cases (num_le p.quantity zero_num)) [
        | inl e ↦ rw e refl
        | inr e ↦ elim (Bool-cases (num_le left zero_num)) [
          | inl d ↦ rw (e, d) (others-remove_first symbol state.positions)
          | inr d ↦ rw (e, d) (others-update_first symbol _ state.positions (λ q. refl))
        ]
      ]

-- A rebalance touches the traded symbol alone: in either direction the positions of the other symbols
-- stay as they were, in their order, whatever the rounding.
pub apply_rebalance_trade-others :
    (a : Arithmetic) (direction : Side) (symbol : ℕ) (quantity price : Number) (state : Account)
    (commission : Number)
    → others symbol
        (apply_rebalance_trade a direction symbol quantity price state commission).0.positions
      ≡ others symbol state.positions
unfolding apply_rebalance_trade
apply_rebalance_trade-others a direction symbol quantity price state commission =
    elim (Bool-cases (num_le quantity zero_num || num_le price zero_num)) [
      | inl e ↦ rw e refl
      | inr e ↦ rw e (traded direction)
    ]
  where
    traded :
        (side : Side)
        → others symbol (rebalance_trade a side symbol quantity price state commission).0.positions
          ≡ others symbol state.positions
    traded buy = buy-others a symbol quantity price state commission
    traded sell =
        sell-others a (find (is_of symbol) state.positions) symbol quantity price state commission
    traded (other_side n) =
        sell-others a (find (is_of symbol) state.positions) symbol quantity price state commission
