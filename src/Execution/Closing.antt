-- ===== src/Execution/Closing.antt =====
-- What a fill of governed-paper-execution.service.ts does to the positions.
use open_neotrader.Base.{
  ℕ, ◌≡◌, ◌⊎◌, refl, true, false, not, ◌++◌, Option, none, some, List, [], ◌∷◌, ◌==◌, arith, find,
  select, some_of, Bool-cases, Option-cases, inl, inr,
}
use open_neotrader.Number.{Number, num_le, num_lt, zero_num}
use open_neotrader.Store.Rows.{TradeAction, long, short, exit, hold}
use open_neotrader.Execution.Account.{
  Arithmetic, GovernedPosition, Account, RiskPolicy, FillPolicy, Market, is_of,
}
use open_neotrader.Execution.Gate.{is_price}
use open_neotrader.Execution.Fill.{
  update_first, remove_first, revalued, unfilled, add_long, add_short, is_short, is_long, fill_long,
  fill_short, execute_long, execute_short, execute_exit, execute_fill,
}
use open_neotrader.Execution.Entry.{evaluate_and_execute_entry, fill_if_passed, fill_with, fill_at}

-- the positions of the other symbols
abbrev pub others : ℕ → List GovernedPosition → List GovernedPosition
others symbol ps = select (λ p. not (is_of symbol p)) ps

others-append :
    (symbol : ℕ) (ps : List GovernedPosition) (q : GovernedPosition)
    → is_of symbol q ≡ true
    → others symbol (ps ++ q ∷ []) ≡ others symbol ps
others-append symbol [] q h = rw h refl
others-append symbol (p ∷ ps) q h = rw (others-append symbol ps q h) refl

pub others-update_first :
    (symbol : ℕ) (f : GovernedPosition → GovernedPosition) (ps : List GovernedPosition)
    → ((p : GovernedPosition) → (f p).symbol ≡ p.symbol)
    → others symbol (update_first symbol f ps) ≡ others symbol ps
unfolding update_first
others-update_first symbol f [] same = refl
others-update_first symbol f (p ∷ ps) same = elim (Bool-cases (is_of symbol p)) [
  | inl e ↦ rw (e, same p, e) refl
  | inr e ↦ ground (arith, e, others-update_first symbol f ps same)
]

pub others-remove_first :
    (symbol : ℕ) (ps : List GovernedPosition)
    → others symbol (remove_first symbol ps) ≡ others symbol ps
unfolding remove_first
others-remove_first symbol [] = refl
others-remove_first symbol (p ∷ ps) = elim (Bool-cases (is_of symbol p)) [
  | inl e ↦ rw e refl
  | inr e ↦ ground (arith, e, others-remove_first symbol ps)
]

self : (n : ℕ) → (n == n) ≡ true
self n = ground arith

module _ (a : Arithmetic) where
  pub others-add_long :
      (e : Option GovernedPosition) (symbol : ℕ) (q price : Number) (ps : List GovernedPosition)
      → others symbol (add_long a e symbol q price ps) ≡ others symbol ps
  others-add_long none symbol q price ps = others-append symbol ps _ (self symbol)
  others-add_long (some x) symbol q price ps = others-update_first symbol _ ps (λ p. refl)

  others-add_short :
      (e : Option GovernedPosition) (symbol : ℕ) (q price : Number) (ps : List GovernedPosition)
      → others symbol (add_short a e symbol q price ps) ≡ others symbol ps
  others-add_short none symbol q price ps = others-append symbol ps _ (self symbol)
  others-add_short (some x) symbol q price ps = others-update_first symbol _ ps (λ p. refl)

  others-fill_long :
      (quantity : Number) (symbol : ℕ) (price : Number) (state : Account) (commission : Number)
      → others symbol (fill_long a quantity symbol price state commission).new_state.positions
        ≡ others symbol state.positions
  unfolding fill_long unfilled revalued
  others-fill_long quantity symbol price state commission =
      elim (Bool-cases (num_le quantity zero_num)) [
        | inl e ↦ rw e refl
        | inr e ↦ rw e (others-add_long (find (is_of symbol) state.positions) symbol _ _ _)
      ]

  others-fill_short :
      (quantity : Number) (symbol : ℕ) (price : Number) (state : Account) (commission : Number)
      → others symbol (fill_short a quantity symbol price state commission).new_state.positions
        ≡ others symbol state.positions
  unfolding fill_short unfilled revalued
  others-fill_short quantity symbol price state commission =
      elim (Bool-cases (num_le quantity zero_num)) [
        | inl e ↦ rw e refl
        | inr e ↦ rw e (others-add_short (find (is_of symbol) state.positions) symbol _ _ _)
      ]

-- A fill of any action touches the traded symbol alone: the positions of the other symbols stay as
-- they were, in their order, whatever the rounding.
pub execute_fill-others :
    (a : Arithmetic) (action : TradeAction) (symbol : ℕ) (price : Number) (state : Account)
    (sizing max_position max_short commission : Number)
    → let fill =
        execute_fill a action symbol price state sizing max_position max_short commission in
      others symbol fill.new_state.positions ≡ others symbol state.positions
unfolding execute_fill execute_long execute_short execute_exit unfilled revalued
execute_fill-others a long symbol price state sizing max_position max_short commission =
    elim (Bool-cases (is_short a (find (is_of symbol) state.positions))) [
      | inl e ↦ rw e refl
      | inr e ↦ rw e (others-fill_long a _ symbol price state commission)
    ]
execute_fill-others a short symbol price state sizing max_position max_short commission =
    elim (Bool-cases (is_long a (find (is_of symbol) state.positions))) [
      | inl e ↦ rw e refl
      | inr e ↦ rw e (others-fill_short a _ symbol price state commission)
    ]
execute_fill-others a exit symbol price state sizing max_position max_short commission =
    elim (Option-cases (find (is_of symbol) state.positions)) [
      | inl e ↦ rw e refl
      | inr (p, e) ↦ rw e (others-remove_first symbol state.positions)
    ]
execute_fill-others a hold symbol price state sizing max_position max_short commission = refl

-- No fill turns a position around in one step: a `long` on a held short and a `short` on a held long
-- trade nothing, and the cash and every position stay as they were.
pub execute_fill-no_flip :
    (a : Arithmetic) (action : TradeAction) (symbol : ℕ) (price : Number) (state : Account)
    (sizing max_position max_short commission : Number) {held : GovernedPosition}
    → find (is_of symbol) state.positions ≡ some held
    → ((action ≡ long) × (num_lt held.quantity zero_num ≡ true))
      ⊎ ((action ≡ short) × (num_lt zero_num held.quantity ≡ true))
    → let fill =
        execute_fill a action symbol price state sizing max_position max_short commission in
      (fill.quantity ≡ zero_num)
      × (fill.new_state.cash ≡ state.cash)
      × (fill.new_state.positions ≡ state.positions)
unfolding execute_fill execute_long execute_short unfilled
execute_fill-no_flip a action symbol price state sizing max_position max_short commission found
      (inl (is_long_action, against)) =
    rw (is_long_action, found, against) (refl, refl, refl)
execute_fill-no_flip a action symbol price state sizing max_position max_short commission found
      (inr (is_short_action, against)) =
    rw (is_short_action, found, against) (refl, refl, refl)

-- No symbol has two positions.
abbrev pub AreDistinct : List GovernedPosition → Type 0
AreDistinct [] = Unit
AreDistinct (p ∷ ps) = (some_of (is_of p.symbol) ps ≡ false) × AreDistinct ps

remove_first-none :
    (symbol : ℕ) (ps : List GovernedPosition)
    → AreDistinct ps
    → some_of (is_of symbol) (remove_first symbol ps) ≡ false
unfolding remove_first
remove_first-none symbol [] distinct = refl
remove_first-none symbol (p ∷ ps) distinct =
    ground (arith, distinct, remove_first-none symbol ps distinct.1)

-- A position can always be closed: where no symbol has two positions, the account holds one of the
-- symbol and the quote is a finite positive number, an `exit` is not refused, whatever the risk policy,
-- the drawdown and the mark-to-market quotes are, the symbol's position is gone and the positions of
-- the other symbols stay as they were.
pub exit_closes :
    (a : Arithmetic) (m : Market) (symbol : ℕ) (state : Account) (risk : RiskPolicy)
    (policy : FillPolicy) {held : GovernedPosition} {last : Number}
    → AreDistinct state.positions
    → find (is_of symbol) state.positions ≡ some held
    → m.fill_quote symbol ≡ some last
    → is_price last ≡ true
    → let result = evaluate_and_execute_entry a m exit symbol state risk policy in
      (result.refusal ≡ none)
      × (result.quantity ≡ held.quantity)
      × (some_of (is_of symbol) result.new_state.positions ≡ false)
      × (others symbol result.new_state.positions ≡ others symbol state.positions)
unfolding evaluate_and_execute_entry fill_if_passed fill_with fill_at execute_fill execute_exit
    revalued
exit_closes a m symbol state risk policy distinct found quoted price =
    rw (quoted, price, found)
      (
        refl,
        refl,
        remove_first-none symbol state.positions distinct,
        others-remove_first symbol state.positions,
      )
