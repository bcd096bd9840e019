-- ===== src/Pretest/Fill.antt =====
-- `_simulateFills` of pretest.service.ts, with what it calls. A
-- function for the reference closes answers NaN where there is none.
use text.Mathlib.Text.{◌==◌ as str_eq}
use open_neotrader.Base.{
  ℕ, String, Bool, true, false, not, ◌&&◌, ◌||◌, Option, none, some, List, [], ◌∷◌, ◌++◌, find,
  or_default, if◌then◌else◌,
}
use open_neotrader.Number.{Number, zero_num, num_of, num_lt, num_le, num_abs, is_finite}
use open_neotrader.Exec.{Result, ok, err, type_error, pure, raise, ◌>>=◌, on_option}
use open_neotrader.Execution.Account.{Arithmetic}
use open_neotrader.TradeIntent.Policy.{binary}
use open_neotrader.Pretest.State.{
  PretestAction, buy, sell, close, short, cover, PretestTrade, PretestPosition, PretestState, Trial,
  ask,
}
use open_neotrader.Pretest.Book.{is_at}

-- the numbers of `PretestPolicy`
pub record PretestPolicy : Type 0 where
  pub sizing_pct : Number
  pub slippage_pct : Number
  pub commission_pct : Number
  pub borrow_cost_pct : Number

-- `args['action']`, in lower case where it is a text
pub data ActionArg : Type 0 where
  absent not_text : ActionArg
  word : String → ActionArg

-- a tool call, whose empty symbol is none
pub record ToolCall : Type 0 where
  pub symbol : Option ℕ
  pub action : ActionArg

abbrev is_flat : Number → Bool
is_flat q = num_le q zero_num && num_le zero_num q

-- the action that leaves a position
abbrev pub exit_of : Option PretestPosition → Option PretestAction
exit_of none = none
exit_of (some p) =
    if is_flat p.quantity
    then none
    else if num_lt zero_num p.quantity
    then some close
    else some cover

-- `_mapIntentAction`
unfoldable pub map_intent_action : String → ℕ → PretestState → Option PretestAction
map_intent_action action symbol state =
    if str_eq action "long"
    then some buy
    else if str_eq action "short"
    then some short
    else if str_eq action "exit"
    then exit_of (find (is_at symbol) state.positions)
    else if str_eq action "buy"
    then some buy
    else if str_eq action "sell"
    then some sell
    else if str_eq action "close"
    then some close
    else if str_eq action "cover"
    then some cover
    else none

abbrev pub action_for : Option ℕ → Option String → PretestState → Option (ℕ × PretestAction)
action_for (some symbol) (some action) state = elim (map_intent_action action symbol state) [
  | some mapped ↦ some (symbol, mapped)
  | none ↦ none
]
action_for _ _ state = none

-- what a tool call asks for; `toLowerCase` throws where the action is no text
abbrev pub proposal : ToolCall → PretestState → Result (Option (ℕ × PretestAction))
proposal tc state = elim tc.action [
  | absent ↦ ok none
  | not_text ↦ err type_error
  | word action ↦ ok (action_for tc.symbol (some action) state)
]

-- `MAX_FILL_PRICE_DEVIATION`, which is 0.5
unfoldable pub max_fill_price_deviation : Number
unfolding binary
max_fill_price_deviation = binary 1 1

-- the two sides that are executed as purchases
abbrev pub is_buying : PretestAction → Bool
is_buying buy = true
is_buying cover = true
is_buying _ = false

-- what an exit closes
abbrev pub held_long : Option PretestPosition → Number
held_long none = zero_num
held_long (some p) = if num_lt zero_num p.quantity then p.quantity else zero_num

abbrev pub held_short : Option PretestPosition → Number
held_short none = zero_num
held_short (some p) = if num_lt p.quantity zero_num then num_abs p.quantity else zero_num

-- the last price that is known
abbrev pub last_known : PretestPosition → Number
last_known pos = or_default pos.current_price pos.avg_price

module _ (a : Arithmetic) where
  -- `_isQuotePlausible`
  unfoldable pub is_quote_plausible : ℕ → Number → (ℕ → Number) → Bool
  is_quote_plausible symbol last reference_closes =
      let close = reference_closes symbol in
      not (is_finite close)
      || num_le close zero_num
      || num_le (num_abs (a.sub (a.div last close) (num_of 1))) max_fill_price_deviation

  -- the quantity of an entry
  abbrev affordable : Number → PretestState → PretestPolicy → Number
  affordable price state policy =
      let budget = a.mul state.cash policy.sizing_pct in
      let cost_per_share = a.mul price (a.add (num_of 1) policy.commission_pct) in
      if num_lt zero_num cost_per_share then a.floor (a.div budget cost_per_share) else zero_num

  -- `_calcQuantity`
  unfoldable pub calc_quantity : PretestAction → ℕ → Number → PretestState → PretestPolicy → Number
  calc_quantity buy symbol price state policy = affordable price state policy
  calc_quantity short symbol price state policy = affordable price state policy
  calc_quantity cover symbol price state policy = held_short (find (is_at symbol) state.positions)
  calc_quantity _ symbol price state policy = held_long (find (is_at symbol) state.positions)

  -- the price after slippage
  abbrev pub slipped : PretestAction → Number → PretestPolicy → Number
  slipped action last policy =
      if is_buying action
      then a.mul last (a.add (num_of 1) policy.slippage_pct)
      else a.mul last (a.sub (num_of 1) policy.slippage_pct)

  -- whether a quote may price a fill
  abbrev pub is_usable : ℕ → Number → (ℕ → Number) → Bool
  is_usable symbol last reference_closes =
      not (num_le last zero_num) && is_quote_plausible symbol last reference_closes

  abbrev pub fill_at : ℕ → PretestAction → Number → Number → ℕ → PretestTrade
  fill_at symbol action price quantity ts = record {
    ts = ts;
    symbol = symbol;
    action = action;
    price = price;
    quantity = quantity;
    pnl = none;
    entry_price = none;
  }

  -- the fill of a quote
  abbrev pub fill_quoted :
      ℕ
      → PretestAction
      → PretestState
      → PretestPolicy
      → (ℕ → Number)
      → Number
      → Trial (List PretestTrade)
  fill_quoted symbol action state policy reference_closes last =
      let price = slipped action last policy in
      let quantity = calc_quantity action symbol price state policy in
      if is_usable symbol last reference_closes && not (num_le quantity zero_num)
      then ask (λ e n. fill_at symbol action price quantity (e.now n) ∷ [])
      else pure []

  abbrev pub fill_proposed :
      Result (Option (ℕ × PretestAction))
      → PretestState
      → PretestPolicy
      → (ℕ → Number)
      → Trial (List PretestTrade)
  fill_proposed (err e) state policy reference_closes = raise e
  fill_proposed (ok none) state policy reference_closes = pure []
  fill_proposed (ok (some (symbol, action))) state policy reference_closes = do
    quote ← ask (λ e n. e.quote n symbol)
    on_option quote (fill_quoted symbol action state policy reference_closes) (pure [])

  -- `_simulateFills`
  unfoldable pub simulate_fills :
      List ToolCall → PretestState → PretestPolicy → (ℕ → Number) → Trial (List PretestTrade)
  simulate_fills [] state policy reference_closes = pure []
  simulate_fills (tc ∷ tcs) state policy reference_closes = do
    filled ← fill_proposed (proposal tc state) state policy reference_closes
    rest ← simulate_fills tcs state policy reference_closes
    pure (filled ++ rest)

  -- whether a quote may mark a position
  abbrev pub is_mark : ℕ → (ℕ → Number) → Number → Bool
  is_mark symbol reference_closes last =
      is_finite last && num_lt zero_num last && is_quote_plausible symbol last reference_closes

  abbrev pub mark_by : PretestPosition → (ℕ → Number) → Option Number → Number
  mark_by pos reference_closes none = last_known pos
  mark_by pos reference_closes (some last) =
      if is_mark pos.symbol reference_closes last then last else last_known pos
