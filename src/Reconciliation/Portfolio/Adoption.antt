-- ===== src/Reconciliation/Portfolio/Adoption.antt =====
-- The adoption of a position that the broker holds and the platform has no order of.
use open_neotrader.Base.{
  ℕ, suc, String, ◌≡◌, refl, Bool, true, ◌++◌, Option, none, some, List, [], ◌∷◌, ◌==◌, arith, find,
  some_of, Bool-cases, inl, inr,
}
use open_neotrader.Number.{num_lt, num_abs, zero_num}
use open_neotrader.Exec.{err, position_not_reported, ◌>>=◌}
use open_neotrader.Store.Rows.{Position, Portfolio, RealOrder}
use open_neotrader.Store.Index.{index_holds}
use open_neotrader.Store.World.{World}
use open_neotrader.Store.Calls.{
  now, new_id, db_call, transaction, get_portfolio, create_order, change_orders, create_intent,
}
use open_neotrader.RealOrder.Guards.{DatabaseWorks}
use open_neotrader.Reconciliation.Portfolio.Sync.{explains}
use open_neotrader.Reconciliation.Portfolio.Adopt.{
  adopted_order, adopted_rows, write_adoption, adopt_broker_position,
}

-- No position is made up: where the broker's portfolio has no position of the symbol, the adoption
-- throws, and the tables and what the broker was told stay as they were.
pub adopt_unreported :
    (symbol broker : ℕ) (remark : Option String) (w : World) {p : Portfolio}
    → w.external.portfolio w.calls_made broker ≡ some p
    → find (λ q. q.symbol == symbol) p.positions ≡ none
    → adopt_broker_position symbol broker remark w
      ≡ (err position_not_reported, record w { calls_made = suc w.calls_made })
unfolding adopt_broker_position get_portfolio ◌>>=◌
adopt_unreported symbol broker remark w fetched missing = rw (fetched, missing) refl

some_of-append_self :
    {A : Type 0} (p : A → Bool) (xs : List A) (x : A) → p x ≡ true → some_of p (xs ++ x ∷ []) ≡ true
some_of-append_self p [] x h = rw h refl
some_of-append_self p (y ∷ ys) x h = elim (Bool-cases (p y)) [
  | inl e ↦ rw e refl
  | inr e ↦ rw e (some_of-append_self p ys x h)
]

-- the row that an adoption adds when its first call is number `n`
abbrev pub next_adopted : ℕ → ℕ → Option String → Position → World → RealOrder
next_adopted symbol broker remark p w =
    let n = w.calls_made in
    adopted_order p symbol broker (w.external.new_id (suc (suc (suc (suc n)))))
      (w.external.new_id (suc (suc n))) (w.external.new_id (suc n)) (w.external.now n)
      (w.external.adoption_json (w.external.now n) remark)

next_adopted-explains :
    (symbol broker : ℕ) (remark : Option String) (p : Position) (w : World)
    → num_lt zero_num (num_abs p.qty) ≡ true
    → explains symbol broker (next_adopted symbol broker remark p w) ≡ true
next_adopted-explains symbol broker remark p w size = ground (arith, size)

-- An adopted position is no drift: where the database works, the new row fits the unique indexes, and
-- the position's quantity is not zero, an order that accounts for the symbol at the broker is in the
-- table after the adoption's rows are written.
pub write_adoption-explains :
    (symbol broker : ℕ) (remark : Option String) (p : Position) (w : World)
    → DatabaseWorks w
    → index_holds (w.db.orders ++ next_adopted symbol broker remark p w ∷ []) ≡ true
    → num_lt zero_num (num_abs p.qty) ≡ true
    → some_of (explains symbol broker) (write_adoption symbol broker remark p w).1.db.orders ≡ true
unfolding write_adoption adopted_rows transaction now new_id create_intent create_order
    change_orders db_call ◌>>=◌
write_adoption-explains symbol broker remark p w works fits size =
    rw
      (works (suc (suc (suc w.calls_made))), works (suc (suc (suc (suc (suc w.calls_made))))), fits)
      (some_of-append_self (explains symbol broker) w.db.orders
        (next_adopted symbol broker remark p w)
        (next_adopted-explains symbol broker remark p w size))
