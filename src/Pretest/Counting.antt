-- ===== src/Pretest/Counting.antt =====
-- What a portfolio of pretest.service.ts keeps while trades are applied to it.
use open_neotrader.Base.{
  ℕ, ◌+◌, ◌≡◌, refl, Bool, true, false, ◌||◌, Option, none, some, List, [], ◌∷◌, ◌++◌, find, select,
  length, All, is_some, arith, if◌then◌else◌, Bool-cases, inl, inr,
}
use open_neotrader.Number.{Number, zero_num, num_lt, num_le, num_min, num_abs}
use open_neotrader.Execution.Account.{Arithmetic}
use open_neotrader.Pretest.State.{
  PretestAction, buy, sell, close, short, cover, PretestTrade, PretestPosition, PretestState,
}
use open_neotrader.Pretest.Holdings.{
  HasOneEach, update_first-HasOneEach, remove_first-HasOneEach, append-HasOneEach,
}
use open_neotrader.Pretest.Book.{
  is_at, is_short_at, opened, closing, bought, apply_buy, settled, reduced, sell_from, apply_sell,
  sold_short, apply_short, is_long, cover_from, apply_cover, apply_by, apply_trades,
}

-- the recorded trades that closed a quantity
abbrev pub closed_count : List PretestTrade → ℕ
closed_count ts = length (select (λ t. is_some t.pnl) ts)

closed_count-append :
    (ts : List PretestTrade) (t : PretestTrade)
    → closed_count (ts ++ t ∷ []) ≡ closed_count ts + (if is_some t.pnl then 1 else 0)
closed_count-append [] t = ground arith
closed_count-append (s ∷ ts) t = ground (arith, closed_count-append ts t)

fresh_count : (v : Option Number) → v ≡ none → ◌≡◌ {A = ℕ} (if is_some v then 1 else 0) 0
fresh_count v h = rw h refl

-- One position of each symbol, and one win or loss for every trade that closed a quantity.
abbrev pub IsBook : PretestState → Type 0
IsBook s = HasOneEach s.positions × (s.win_trades + s.loss_trades ≡ closed_count s.trades)

-- a proposed trade, which has closed nothing yet
abbrev pub IsFresh : PretestTrade → Type 0
IsFresh t = t.pnl ≡ none

module _ (a : Arithmetic) where
  settled-IsBook :
      (s : PretestState) (t : PretestTrade) (pnl entry cash : Number) (ps : List PretestPosition)
      → HasOneEach ps
      → IsBook s
      → IsBook (settled a s t pnl entry cash ps)
  settled-IsBook s t pnl entry cash ps one h =
      let more = closed_count-append s.trades (closing pnl entry t) in
      (
        one,
        elim (Bool-cases (num_lt zero_num pnl)) [
          | inl e ↦ rw e (omega (arith, more, h.1))
          | inr e ↦ rw e (omega (arith, more, h.1))
        ],
      )

  reduced-HasOneEach :
      (matches : PretestPosition → Bool) (flat : Bool) (left : Number) (ps : List PretestPosition)
      → HasOneEach ps
      → HasOneEach (reduced matches flat left ps)
  reduced-HasOneEach matches true left ps h = remove_first-HasOneEach matches ps h
  reduced-HasOneEach matches false left ps h = update_first-HasOneEach matches _ ps (λ p. refl) h

  bought-HasOneEach :
      (o : Option PretestPosition) (t : PretestTrade) (basis : Number) (ps : List PretestPosition)
      → find (is_at t.symbol) ps ≡ o
      → HasOneEach ps
      → HasOneEach (bought a o t basis ps)
  bought-HasOneEach none t basis ps e h =
      append-HasOneEach (opened t.symbol t.quantity basis) ps e h
  bought-HasOneEach (some p) t basis ps e h =
      update_first-HasOneEach (is_at t.symbol) _ ps (λ p. refl) h

  sold_short-HasOneEach :
      (o : Option PretestPosition) (t : PretestTrade) (basis : Number) (ps : List PretestPosition)
      → find (is_at t.symbol) ps ≡ o
      → HasOneEach ps
      → HasOneEach (sold_short a o t basis ps)
  sold_short-HasOneEach none t basis ps e h = append-HasOneEach (opened t.symbol _ basis) ps e h
  sold_short-HasOneEach (some p) t basis ps e h =
      update_first-HasOneEach (is_at t.symbol) _ ps (λ p. refl) h

  opened_count :
      (s : PretestState) (t : PretestTrade)
      → IsFresh t
      → s.win_trades + s.loss_trades ≡ closed_count s.trades
      → s.win_trades + s.loss_trades ≡ closed_count (s.trades ++ t ∷ [])
  opened_count s t f h = omega (arith, closed_count-append s.trades t, fresh_count t.pnl f, h)

  apply_buy-IsBook :
      (s : PretestState) (t : PretestTrade) (c : Number)
      → IsFresh t
      → IsBook s
      → IsBook (apply_buy a s t c)
  unfolding apply_buy
  apply_buy-IsBook s t c f h =
      elim (Bool-cases
        (num_lt s.cash (a.add (a.mul t.price t.quantity) (a.mul (a.mul t.price t.quantity) c)))) [
          | inl e ↦ rw e h
          | inr e ↦ rw e (
            bought-HasOneEach (find (is_at t.symbol) s.positions) t _ s.positions refl h.0,
            opened_count s t f h.1,
          )
        ]

  apply_short-IsBook :
      (s : PretestState) (t : PretestTrade) (c : Number)
      → IsFresh t
      → IsBook s
      → IsBook (apply_short a s t c)
  unfolding apply_short
  apply_short-IsBook s t c f h =
      let existing = find (is_at t.symbol) s.positions in
      let net = a.sub (a.mul t.price t.quantity) (a.mul (a.mul t.price t.quantity) c) in
      elim (Bool-cases (is_long existing || (num_le net zero_num || num_le t.quantity zero_num))) [
        | inl e ↦ rw e h
        | inr e ↦ rw e (
          sold_short-HasOneEach existing t (a.div net t.quantity) s.positions refl h.0,
          opened_count s t f h.1,
        )
      ]

  sell_from-IsBook :
      (o : Option PretestPosition) (s : PretestState) (t : PretestTrade) (c : Number)
      → IsBook s
      → IsBook (sell_from a o s t c)
  sell_from-IsBook none s t c h = h
  sell_from-IsBook (some p) s t c h =
      settled-IsBook s t _ _ zero_num _ (reduced-HasOneEach (is_at t.symbol) _ _ s.positions h.0) h

  cover_from-IsBook :
      (o : Option PretestPosition) (s : PretestState) (t : PretestTrade) (c : Number)
      → IsBook s
      → IsBook (cover_from a o s t c)
  cover_from-IsBook none s t c h = h
  cover_from-IsBook (some p) s t c h =
      elim (Bool-cases (num_le (num_min t.quantity (num_abs p.quantity)) zero_num)) [
        | inl e ↦ rw e h
        | inr e ↦ rw e (
            settled-IsBook s t _ _ zero_num _
              (reduced-HasOneEach (is_short_at t.symbol) _ _ s.positions h.0) h)
      ]

  apply_by-IsBook :
      (action : PretestAction) (s : PretestState) (t : PretestTrade) (c : Number)
      → IsFresh t
      → IsBook s
      → IsBook (apply_by a action s t c)
  unfolding apply_sell apply_cover
  apply_by-IsBook buy s t c f h = apply_buy-IsBook s t c f h
  apply_by-IsBook sell s t c f h = sell_from-IsBook (find (is_at t.symbol) s.positions) s t c h
  apply_by-IsBook close s t c f h = sell_from-IsBook (find (is_at t.symbol) s.positions) s t c h
  apply_by-IsBook short s t c f h = apply_short-IsBook s t c f h
  apply_by-IsBook cover s t c f h =
      cover_from-IsBook (find (is_short_at t.symbol) s.positions) s t c h

-- The book of a portfolio stays sound: where it holds one position of each symbol, and its wins and
-- losses add up to the recorded trades that closed a quantity, it does so after any list of proposed
-- trades is applied, whichever of them are carried out, and at whatever prices.
pub apply_trades-IsBook :
    (a : Arithmetic) (s : PretestState) (ts : List PretestTrade) (commission_pct : Number)
    → All IsFresh ts
    → IsBook s
    → IsBook (apply_trades a s ts commission_pct)
unfolding apply_trades
apply_trades-IsBook a s [] c f h = h
apply_trades-IsBook a s (t ∷ ts) c f h =
    apply_trades-IsBook a (apply_by a t.action s t c) ts c f.1
      (apply_by-IsBook a t.action s t c f.0 h)
