-- ===== src/Execution/Fill.antt =====
-- The fill of governed-paper-execution.service.ts: the sizing ceilings and `executeFill`.
use open_neotrader.Base.{
  ℕ, Bool, true, false, Option, none, some, List, [], ◌∷◌, ◌++◌, ◌==◌, if◌then◌else◌, find,
}
use open_neotrader.Number.{Number, num_lt, num_le, num_max, num_abs, num_neg, num_of, zero_num}
use open_neotrader.Store.Rows.{TradeAction, long, short, exit, hold}
use open_neotrader.Execution.Account.{
  Arithmetic, GovernedPosition, Account, FillResult, base_hwm, is_of,
}

-- the first position of the symbol is replaced, or taken out
unfoldable pub update_first :
    ℕ → (GovernedPosition → GovernedPosition) → List GovernedPosition → List GovernedPosition
update_first symbol f [] = []
update_first symbol f (p ∷ ps) = if is_of symbol p then f p ∷ ps else p ∷ update_first symbol f ps

unfoldable pub remove_first : ℕ → List GovernedPosition → List GovernedPosition
remove_first symbol [] = []
remove_first symbol (p ∷ ps) = if is_of symbol p then ps else p ∷ remove_first symbol ps

module _ (a : Arithmetic) where
  -- `clampToPositionCeiling` and `clampToShortNotionalCeiling`, which are one computation
  unfoldable pub clamp_to_ceiling : Number → Number → Number → Number → Number
  clamp_to_ceiling qty equity price max_pct =
      let max_qty = a.floor (a.div (a.mul equity max_pct) price) in
      if num_le qty zero_num then qty else if num_lt max_qty qty then max_qty else qty

  -- `positionsValue`
  unfoldable pub positions_value : List GovernedPosition → Number → ℕ → Number → Number
  positions_value [] fill_price traded sum = sum
  positions_value (p ∷ ps) fill_price traded sum =
      positions_value ps fill_price traded
        (a.add sum (a.mul (if p.symbol == traded then fill_price else p.avg_price) p.quantity))

  -- the account after a trade: its equity and its peak are computed anew
  unfoldable pub revalued : Account → Number → List GovernedPosition → Number → ℕ → Account
  revalued state cash positions fill_price symbol =
      let equity = a.add cash (positions_value positions fill_price symbol zero_num) in
      record state {
        cash = cash;
        positions = positions;
        equity = equity;
        hwm = some (num_max (base_hwm state) equity);
      }

  -- no trade: only the peak is written
  unfoldable pub unfilled : Account → Bool → FillResult
  unfilled state no_position = record {
    quantity = zero_num;
    realized_pnl = none;
    new_state = record state { hwm = some (num_max (base_hwm state) state.equity) };
    no_position = no_position;
  }

  -- the shares that a budget buys at a price, before the ceilings
  abbrev affordable : Number → Number → Number
  affordable budget per_share =
      if num_lt zero_num per_share then a.floor (a.div budget per_share) else zero_num

  abbrev averaged : Number → Number → Number → Number → Number → Number
  averaged old_price old_qty price qty total =
      a.div (a.add (a.mul old_price old_qty) (a.mul price qty)) total

  -- a purchase added to a position, at the price that its cost comes to
  abbrev bought : Number → Number → GovernedPosition → GovernedPosition
  bought quantity price p =
      let total = a.add p.quantity quantity in
      record p {
        quantity = total;
        avg_price = averaged p.avg_price p.quantity price quantity total;
      }

  abbrev sold : Number → Number → GovernedPosition → GovernedPosition
  sold quantity price p =
      let held = num_abs p.quantity in
      let total = a.add held quantity in
      record p {
        quantity = num_neg total;
        avg_price = averaged p.avg_price held price quantity total;
      }

  abbrev pub add_long :
      Option GovernedPosition → ℕ → Number → Number → List GovernedPosition → List GovernedPosition
  add_long none symbol quantity price ps =
      ps ++ record { symbol = symbol; quantity = quantity; avg_price = price } ∷ []
  add_long (some _) symbol quantity price ps = update_first symbol (bought quantity price) ps

  abbrev pub add_short :
      Option GovernedPosition → ℕ → Number → Number → List GovernedPosition → List GovernedPosition
  add_short none symbol quantity price ps =
      ps ++ record { symbol = symbol; quantity = num_neg quantity; avg_price = price } ∷ []
  add_short (some _) symbol quantity price ps = update_first symbol (sold quantity price) ps

  -- the sign of the quantity held, if a position is held
  abbrev pub is_short : Option GovernedPosition → Bool
  is_short none = false
  is_short (some p) = num_lt p.quantity zero_num

  abbrev pub is_long : Option GovernedPosition → Bool
  is_long none = false
  is_long (some p) = num_lt zero_num p.quantity

  abbrev traded : Number → Account → FillResult
  traded quantity state = record {
    quantity = quantity;
    realized_pnl = none;
    new_state = state;
    no_position = false;
  }

  -- the part of `_executeLong` after the quantity is known
  unfoldable pub fill_long : Number → ℕ → Number → Account → Number → FillResult
  fill_long quantity symbol price state commission_pct =
      let notional = a.mul price quantity in
      let cost = a.add notional (a.mul notional commission_pct) in
      let existing = find (is_of symbol) state.positions in
      let positions = add_long existing symbol quantity (a.div cost quantity) state.positions in
      if num_le quantity zero_num
      then unfilled state false
      else traded quantity (revalued state (a.sub state.cash cost) positions price symbol)

  -- `_executeLong`
  unfoldable pub execute_long : ℕ → Number → Account → Number → Number → Number → FillResult
  execute_long symbol price state sizing_pct max_position_pct commission_pct =
      let budget = a.mul state.cash sizing_pct in
      let per_share = a.mul price (a.add (num_of 1) commission_pct) in
      let quantity =
        clamp_to_ceiling (affordable budget per_share) state.equity price max_position_pct in
      if is_short (find (is_of symbol) state.positions)
      then unfilled state false
      else fill_long quantity symbol price state commission_pct

  unfoldable pub fill_short : Number → ℕ → Number → Account → Number → FillResult
  fill_short quantity symbol price state commission_pct =
      let notional = a.mul price quantity in
      let proceeds = a.sub notional (a.mul notional commission_pct) in
      let existing = find (is_of symbol) state.positions in
      let positions =
        add_short existing symbol quantity (a.div proceeds quantity) state.positions in
      if num_le quantity zero_num
      then unfilled state false
      else traded quantity (revalued state (a.add state.cash proceeds) positions price symbol)

  -- `_executeShort`
  unfoldable pub execute_short :
      ℕ → Number → Account → Number → Number → Number → Number → FillResult
  execute_short symbol price state sizing_pct max_position_pct max_short_pct commission_pct =
      let budget = a.mul state.cash sizing_pct in
      let per_share = a.mul price (a.add (num_of 1) commission_pct) in
      let capped =
        clamp_to_ceiling (affordable budget per_share) state.equity price max_position_pct in
      let quantity = clamp_to_ceiling capped state.equity price max_short_pct in
      if is_long (find (is_of symbol) state.positions)
      then unfilled state false
      else fill_short quantity symbol price state commission_pct

  -- the branch `exit` of `executeFill`
  unfoldable pub execute_exit : Option GovernedPosition → ℕ → Number → Account → Number → FillResult
  execute_exit none symbol price state commission_pct = unfilled state true
  execute_exit (some p) symbol price state commission_pct =
      let proceeds = a.mul price p.quantity in
      let commission = a.mul (num_abs proceeds) commission_pct in
      let cash = a.add state.cash (a.sub proceeds commission) in
      record {
        quantity = p.quantity;
        realized_pnl = some (a.sub (a.mul (a.sub price p.avg_price) p.quantity) commission);
        new_state = revalued state cash (remove_first symbol state.positions) price symbol;
        no_position = false;
      }

  -- `executeFill`
  unfoldable pub execute_fill :
      TradeAction → ℕ → Number → Account → Number → Number → Number → Number → FillResult
  execute_fill long symbol price state sizing_pct max_position_pct max_short_pct commission_pct =
      execute_long symbol price state sizing_pct max_position_pct commission_pct
  execute_fill short symbol price state sizing_pct max_position_pct max_short_pct commission_pct =
      execute_short symbol price state sizing_pct max_position_pct max_short_pct commission_pct
  execute_fill exit symbol price state sizing_pct max_position_pct max_short_pct commission_pct =
      execute_exit (find (is_of symbol) state.positions) symbol price state commission_pct
  execute_fill hold symbol price state sizing_pct max_position_pct max_short_pct commission_pct =
      unfilled state false
