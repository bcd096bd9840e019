-- ===== src/Pretest/Book.antt =====
-- `_applyTrades` of pretest.service.ts: how a simulated trade changes a portfolio. The code changes the
-- position objects in place, which the state that it was given shares; its callers use the result only.
use open_neotrader.Base.{
  ℕ, suc, Bool, false, ◌&&◌, ◌||◌, Option, none, some, List, [], ◌∷◌, ◌++◌, ◌==◌, find,
  if◌then◌else◌,
}
use open_neotrader.Number.{Number, zero_num, num_lt, num_le, num_min, num_abs, num_neg}
use open_neotrader.Execution.Account.{Arithmetic}
use open_neotrader.Pretest.State.{
  PretestAction, buy, sell, close, short, cover, PretestTrade, PretestPosition, PretestState,
}

-- the first position that matches is replaced, or taken out
abbrev pub update_first :
    (PretestPosition → Bool)
    → (PretestPosition → PretestPosition)
    → List PretestPosition
    → List PretestPosition
update_first matches f [] = []
update_first matches f (p ∷ ps) =
    let rest = update_first matches f ps in if matches p then f p ∷ ps else p ∷ rest

abbrev pub remove_first : (PretestPosition → Bool) → List PretestPosition → List PretestPosition
remove_first matches [] = []
remove_first matches (p ∷ ps) =
    let rest = remove_first matches ps in if matches p then ps else p ∷ rest

abbrev pub is_at : ℕ → PretestPosition → Bool
is_at symbol p = p.symbol == symbol

abbrev pub is_short_at : ℕ → PretestPosition → Bool
is_short_at symbol p = p.symbol == symbol && num_lt p.quantity zero_num

abbrev pub opened : ℕ → Number → Number → PretestPosition
opened symbol quantity avg_price = record {
  symbol = symbol;
  quantity = quantity;
  avg_price = avg_price;
  current_price = none;
  unrealized_pnl = none;
}

-- the trade as it is recorded once it has closed a quantity
abbrev pub closing : Number → Number → PretestTrade → PretestTrade
closing pnl entry_price t = record t { pnl = some pnl; entry_price = some entry_price }

abbrev pub is_long : Option PretestPosition → Bool
is_long none = false
is_long (some p) = num_lt zero_num p.quantity

-- the positions after a part of one is closed
abbrev pub reduced :
    (PretestPosition → Bool) → Bool → Number → List PretestPosition → List PretestPosition
reduced matches is_flat left ps =
    if is_flat
    then remove_first matches ps
    else update_first matches (λ p. record p { quantity = left }) ps

module _ (a : Arithmetic) where
  -- the average price of what is held and what is added
  abbrev pub averaged : Number → Number → Number → Number → Number → Number
  averaged avg_price held price added total =
      a.div (a.add (a.mul avg_price held) (a.mul price added)) total

  -- the positions after a purchase
  abbrev pub bought :
      Option PretestPosition → PretestTrade → Number → List PretestPosition → List PretestPosition
  bought none t basis ps = ps ++ opened t.symbol t.quantity basis ∷ []
  bought (some _) t basis ps =
      update_first (is_at t.symbol)
        (λ p.
          let total = a.add p.quantity t.quantity in
          record p {
            avg_price = averaged p.avg_price p.quantity basis t.quantity total;
            quantity = total;
          })
        ps

  -- `_applyBuy`
  unfoldable pub apply_buy : PretestState → PretestTrade → Number → PretestState
  apply_buy state t commission_pct =
      let notional = a.mul t.price t.quantity in
      let total_cost = a.add notional (a.mul notional commission_pct) in
      if num_lt state.cash total_cost then state else record state {
        cash = a.sub state.cash total_cost;
        trades = state.trades ++ t ∷ [];
        positions =
            bought (find (is_at t.symbol) state.positions) t (a.div total_cost t.quantity)
              state.positions;
      }

  -- the counts and the record of a trade that closed a quantity
  abbrev pub settled :
      PretestState → PretestTrade → Number → Number → Number → List PretestPosition → PretestState
  settled state t pnl entry_price cash positions =
      let is_win = num_lt zero_num pnl in
      record state {
        cash = cash;
        realized_pnl = a.add state.realized_pnl pnl;
        win_trades = if is_win then suc state.win_trades else state.win_trades;
        loss_trades = if is_win then state.loss_trades else suc state.loss_trades;
        positions = positions;
        trades = state.trades ++ closing pnl entry_price t ∷ [];
      }

  abbrev pub sell_from :
      Option PretestPosition → PretestState → PretestTrade → Number → PretestState
  sell_from none state t commission_pct = state
  sell_from (some pos) state t commission_pct =
      let qty = num_min t.quantity pos.quantity in
      let proceeds = a.mul t.price qty in
      let commission = a.mul proceeds commission_pct in
      let pnl = a.sub (a.mul (a.sub t.price pos.avg_price) qty) commission in
      let left = a.sub pos.quantity qty in
      settled state t pnl pos.avg_price (a.add state.cash (a.sub proceeds commission))
        (reduced (is_at t.symbol) (num_le left zero_num) left state.positions)

  -- `_applySell`
  unfoldable pub apply_sell : PretestState → PretestTrade → Number → PretestState
  apply_sell state t commission_pct =
      sell_from (find (is_at t.symbol) state.positions) state t commission_pct

  abbrev pub sold_short :
      Option PretestPosition → PretestTrade → Number → List PretestPosition → List PretestPosition
  sold_short none t basis ps = ps ++ opened t.symbol (num_neg t.quantity) basis ∷ []
  sold_short (some _) t basis ps =
      update_first (is_at t.symbol)
        (λ p.
          let held = num_abs p.quantity in
          let total = a.add held t.quantity in
          record p {
            avg_price = averaged p.avg_price held basis t.quantity total;
            quantity = num_neg total;
          })
        ps

  -- `_applyShort`
  unfoldable pub apply_short : PretestState → PretestTrade → Number → PretestState
  apply_short state t commission_pct =
      let existing = find (is_at t.symbol) state.positions in
      let notional = a.mul t.price t.quantity in
      let net_proceeds = a.sub notional (a.mul notional commission_pct) in
      if is_long existing || (num_le net_proceeds zero_num || num_le t.quantity zero_num)
      then state
      else record state {
        cash = a.add state.cash net_proceeds;
        trades = state.trades ++ t ∷ [];
        positions = sold_short existing t (a.div net_proceeds t.quantity) state.positions;
      }

  abbrev pub cover_from :
      Option PretestPosition → PretestState → PretestTrade → Number → PretestState
  cover_from none state t commission_pct = state
  cover_from (some pos) state t commission_pct =
      let qty = num_min t.quantity (num_abs pos.quantity) in
      let cost = a.mul t.price qty in
      let commission = a.mul cost commission_pct in
      let pnl = a.sub (a.mul (a.sub pos.avg_price t.price) qty) commission in
      let left = a.add pos.quantity qty in
      if num_le qty zero_num
      then state
      else settled state t pnl pos.avg_price (a.sub state.cash (a.add cost commission))
          (reduced (is_short_at t.symbol) (num_le zero_num left) left state.positions)

  -- `_applyCover`
  unfoldable pub apply_cover : PretestState → PretestTrade → Number → PretestState
  apply_cover state t commission_pct =
      cover_from (find (is_short_at t.symbol) state.positions) state t commission_pct

  abbrev pub apply_by : PretestAction → PretestState → PretestTrade → Number → PretestState
  apply_by buy state t commission_pct = apply_buy state t commission_pct
  apply_by sell state t commission_pct = apply_sell state t commission_pct
  apply_by close state t commission_pct = apply_sell state t commission_pct
  apply_by short state t commission_pct = apply_short state t commission_pct
  apply_by cover state t commission_pct = apply_cover state t commission_pct

  -- `_applyTrades`
  unfoldable pub apply_trades : PretestState → List PretestTrade → Number → PretestState
  apply_trades state [] commission_pct = state
  apply_trades state (t ∷ ts) commission_pct =
      apply_trades (apply_by t.action state t commission_pct) ts commission_pct
