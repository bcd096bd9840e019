-- ===== src/TradeIntent/Quotes.antt =====
-- The price and the quantity of an order of `_executeReal` in trade-intent.service.ts: which quote the
-- price of an entry is, and what the checks leave of both.
use open_neotrader.Base.{
  ℕ, ◌≡◌, refl, false, not, ◌&&◌, true, some, ◌⊎◌, inl, inr, arith, Bool-cases, Option-cases,
}
use open_neotrader.Number.{Number, nan, neg_inf, finite, pos_inf, zero_num, num_lt, num_le}
use open_neotrader.Exec.{Result, ok, err}
use open_neotrader.Exec.Leads.{Yields}
use open_neotrader.Execution.Gate.{is_price}
use open_neotrader.Store.Rows.{TradeAction}
use open_neotrader.Store.World.{External}
use open_neotrader.Store.Calls.{quoted}
use open_neotrader.TradeIntent.Policy.{ExecutionPolicy}
use open_neotrader.TradeIntent.Mode.{is_opening}
use open_neotrader.TradeIntent.Real.{price_or_nan}
use open_neotrader.TradeIntent.Orders.{IsPriced}

-- what an answered quote of a symbol is
abbrev pub IsQuote : External → ℕ → Number → Type 0
IsQuote e symbol price = (n : ℕ) × (e.quote n symbol ≡ some price)

-- the price that an entry was checked to have
abbrev pub HasPrice : External → ℕ → TradeAction → Number → Type 0
HasPrice e symbol action price =
    (is_opening action ≡ false) ⊎ (IsQuote e symbol price × (is_price price ≡ true))

pub quoted-IsQuote :
    (e x : External) (n symbol : ℕ) → x ≡ e → Yields (IsQuote e symbol) (quoted (x.quote n symbol))
quoted-IsQuote e x n symbol same =
    rw same
      (elim (Option-cases (e.quote n symbol)) [ inl is ↦ rw is tt | inr (q, is) ↦ rw is (n, is) ])

pub price_or_nan-HasPrice :
    (e : External) (symbol : ℕ) (action : TradeAction) (quote : Result Number)
    → Yields (IsQuote e symbol) quote
    → (is_opening action && not (is_price (price_or_nan quote))) ≡ false
    → HasPrice e symbol action (price_or_nan quote)
price_or_nan-HasPrice e symbol action (ok q) from priced = elim (Bool-cases (is_opening action)) [
  | inl opening ↦ inr (from, ground (arith, opening, priced))
  | inr closing ↦ inl closing
]
price_or_nan-HasPrice e symbol action (err x) from priced = inl (ground (arith, priced))

pub HasPrice-IsPriced :
    (e : External) (policy : ExecutionPolicy) (symbol : ℕ) (action : TradeAction)
    (price qty : Number)
    → HasPrice e symbol action price
    → (is_opening action && num_lt policy.max_order_notional (e.arithmetic.mul qty price)) ≡ false
    → IsPriced e policy symbol action qty
HasPrice-IsPriced e policy symbol action price qty priced within =
    elim (Bool-cases (is_opening action)) [
      | inr closing ↦ inl closing
      | inl opening ↦ elim priced [
        | inl closing ↦ inl closing
        | inr (from, fine) ↦ inr (from.0, price, from.1, fine, ground (arith, opening, within))
      ]
    ]

pub num_le-above : (x : Number) → num_le x zero_num ≡ false → (num_lt zero_num x ≡ true) ⊎ (x ≡ nan)
num_le-above nan h = inr refl
num_le-above neg_inf h = inl (ground (arith, h))
num_le-above (finite n) h = inl (ground (arith, h))
num_le-above pos_inf h = inl (ground (arith, h))
