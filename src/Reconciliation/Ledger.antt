-- ===== src/Reconciliation/Ledger.antt =====
-- The tables of orders and intents: what `applyBrokerOrder` and `reconcileOrder` write, and what they leave.
use open_neotrader.Base.{
  ℕ, suc, ◌≡◌, ◌⊎◌, inl, inr, refl, ap, Bool, true, false, ◌&&◌, Option, none, some, List, [], ◌∷◌,
  map, ◌==◌, find, some_of, update_where, is_yes, Bool-cases, Option-cases,
}
use open_neotrader.Exec.{◌>>=◌}
use open_neotrader.Common.BrokerStatus.{filled, canceled, normalize_broker_status}
use open_neotrader.Store.Rows.{
  Status, Status-discrete, RealOrder, OrderStatus, TradeIntent, IntentStatus,
}
use open_neotrader.Store.Index.{index_holds}
use open_neotrader.Store.World.{World, Db}
use open_neotrader.Store.Calls.{
  now, db_call, read_db, change_orders, update_order, update_order_if, update_intent, transaction,
}
use open_neotrader.RealOrder.Guards.{DatabaseWorks}
use open_neotrader.Reconciliation.Apply.{
  is_final, is_fill_evidence, mark_touched, touch_last_reconciled_at, settle_order, apply_canonical,
  apply_broker_order, reconcile_order,
}

-- the row is still the one that was read: its id, at the status observed
abbrev pub is_as_read : RealOrder → RealOrder → Bool
is_as_read row r = r.id == row.id && is_yes (Status-discrete r.status row.status)

-- The orders and the intents after both writes.
abbrev pub Settled :
    RealOrder → (RealOrder → RealOrder) → (TradeIntent → TradeIntent) → Db → Db → Type 0
Settled row f g before after =
    (after.orders ≡ update_where (is_as_read row) f before.orders)
    × (after.intents ≡ update_where (λ t. t.id == row.trade_intent_id) g before.intents)

update_where-none :
    {A : Type 0} (p : A → Bool) (f : A → A) (xs : List A)
    → some_of p xs ≡ false
    → update_where p f xs ≡ xs
update_where-none p f [] h = refl
update_where-none p f (x ∷ xs) h = elim (Bool-cases (p x)) [
  | inl e ↦ cc
  | inr e ↦ rw e (ap (λ ys. x ∷ ys) (update_where-none p f xs (rw e at h)))
]

module _ (row : RealOrder) (f : RealOrder → RealOrder) (g : TradeIntent → TradeIntent) where
  -- A transaction writes both tables or neither: after `$transaction` either the database is as it was
  -- before, or the order's row has changed and its intent too, and the order had the status observed.
  -- So an order that another writer has moved on, or a fault between the two writes, changes nothing.
  pub settle_order-all_or_nothing :
      (w : World)
      → ((settle_order row f g w).1.db ≡ w.db)
        ⊎ ((some_of (is_as_read row) w.db.orders ≡ true)
            × Settled row f g w.db (settle_order row f g w).1.db)
  unfolding settle_order transaction update_order_if update_intent db_call change_orders ◌>>=◌
  settle_order-all_or_nothing w = elim (Bool-cases (w.external.db_works w.calls_made)) [
    | inr e ↦ inl (rw e refl)
    | inl e ↦ elim (Bool-cases (index_holds (update_where (is_as_read row) f w.db.orders))) [
      | inr i ↦ inl (rw (e, i) refl)
      | inl i ↦ elim (Bool-cases (some_of (is_as_read row) w.db.orders)) [
        | inr m ↦ inl (rw (e, i, m, update_where-none (is_as_read row) f w.db.orders m) refl)
        | inl m ↦ elim (Bool-cases (w.external.db_works (suc w.calls_made))) [
          | inr d ↦ inl (rw (e, i, m, d) refl)
          | inl d ↦ elim (Bool-cases (some_of (λ t. t.id == row.trade_intent_id) w.db.intents)) [
            | inr t ↦ inl (rw (e, i, m, d, t) refl)
            | inl t ↦ inr (m, rw (e, i, m, d, t) (refl, refl))
          ]
        ]
      ]
    ]
  ]

-- the row of an order that was canceled after a part of it filled
abbrev pub canceled_row : OrderStatus → ℕ → RealOrder → RealOrder
canceled_row o time r = record r {
  status = Status.canceled;
  broker_order_id = some o.broker_order_id;
  filled_qty = o.filled_qty;
  filled_avg_price = o.filled_avg_price;
  last_reconciled_at = some time;
}

-- the intent of such an order
abbrev pub filled_intent : OrderStatus → TradeIntent → TradeIntent
filled_intent o t = record t {
  status = IntentStatus.executed;
  fill_price = o.filled_avg_price;
  quantity = some o.filled_qty;
}

-- An order that is canceled after a part of it filled keeps that fill: where the database works, the
-- row still has the status observed, the change fits the unique indexes, the intent exists, the broker
-- reports a canceled order and its quantity and price are valid evidence of a fill, the row becomes
-- `canceled` with the broker's id of the order, filled quantity and average price, reconciled at that
-- time, and the intent `executed` with the broker's price and quantity; all else of both tables stays.
pub canceled_with_fill :
    (row : RealOrder) (o : OrderStatus) (w : World)
    → DatabaseWorks w
    → normalize_broker_status o.status ≡ canceled
    → is_fill_evidence o ≡ true
    → some_of (is_as_read row) w.db.orders ≡ true
    → index_holds
        (update_where (is_as_read row) (canceled_row o (w.external.now w.calls_made)) w.db.orders)
      ≡ true
    → some_of (λ t. t.id == row.trade_intent_id) w.db.intents ≡ true
    → Settled row
        (canceled_row o (w.external.now w.calls_made))
        (filled_intent o)
        w.db
        (apply_broker_order row o w).1.db
unfolding apply_broker_order apply_canonical now settle_order transaction update_order_if
    update_intent db_call change_orders ◌>>=◌
canceled_with_fill row o w works status evidence current fits intent =
    rw
      (
        status,
        evidence,
        works (suc w.calls_made),
        fits,
        current,
        works (suc (suc w.calls_made)),
        intent,
      )
      (refl, refl)

-- A final row is never asked about again: `reconcileOrder` reads the row, and neither the tables nor
-- the broker hear of it.
pub reconcile_order_final :
    (id : ℕ) (w : World) {row : RealOrder}
    → find (λ r. r.id == id) w.db.orders ≡ some row
    → is_final row.status ≡ true
    → ((reconcile_order id w).1.db ≡ w.db) × ((reconcile_order id w).1.told ≡ w.told)
unfolding reconcile_order read_db db_call ◌>>=◌
reconcile_order_final id w found_row done = elim (Bool-cases (w.external.db_works w.calls_made)) [
  | inl e ↦ rw (e, found_row, done) (refl, refl)
  | inr e ↦ rw e (refl, refl)
]

map-update_where :
    {A B : Type 0} (view : A → B) (p : A → Bool) (f : A → A) (xs : List A)
    → ((x : A) → view (f x) ≡ view x)
    → map view (update_where p f xs) ≡ map view xs
map-update_where view p f [] same = refl
map-update_where view p f (x ∷ xs) same = elim (Bool-cases (p x)) [
  | inl e ↦ rw (e, same x, map-update_where view p f xs same) refl
  | inr e ↦ rw (e, map-update_where view p f xs same) refl
]

-- What the statuses of the orders and all of the intents are.
abbrev pub LedgerIs : World → World → Type 0
LedgerIs before after =
    (map (λ r. r.status) after.db.orders ≡ map (λ r. r.status) before.db.orders)
    × (after.db.intents ≡ before.db.intents)

touch-LedgerIs :
    (id : ℕ) (backfill : Option ℕ) (w : World)
    → LedgerIs w (touch_last_reconciled_at id backfill w).1
unfolding touch_last_reconciled_at now update_order db_call change_orders ◌>>=◌
touch-LedgerIs id backfill w = elim (Bool-cases (w.external.db_works (suc w.calls_made))) [
  | inr e ↦ rw e (refl, refl)
  | inl e ↦ elim (Option-cases (find (λ r. r.id == id) w.db.orders)) [
    | inl n ↦ rw (e, n) (refl, refl)
    | inr (r, n) ↦
        elim (Bool-cases (
          index_holds (
            update_where (λ s. s.id == id) (mark_touched backfill (w.external.now w.calls_made))
              w.db.orders))) [
                | inr i ↦ rw (e, n, i) (refl, refl)
                | inl i ↦
                    rw (e, n, i)
                      (
                        map-update_where (λ r. r.status) (λ s. s.id == id)
                            (mark_touched backfill (w.external.now w.calls_made)) w.db.orders
                            (λ x. refl),
                        refl,
                      )
              ]
  ]
]

-- No fill is made up: where the broker says `filled` without a positive finite quantity and price,
-- every order keeps its status and every intent stays as it is.
pub unproven_fill-LedgerIs :
    (row : RealOrder) (o : OrderStatus) (w : World)
    → normalize_broker_status o.status ≡ filled
    → is_fill_evidence o ≡ false
    → LedgerIs w (apply_broker_order row o w).1
unfolding apply_broker_order apply_canonical now ◌>>=◌
unproven_fill-LedgerIs row o w status evidence =
    rw (status, evidence) (touch-LedgerIs row.id none _)
