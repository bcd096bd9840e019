-- ===== src/Reconciliation/Stale.antt =====
-- What the cancellation of stale orders in real-broker-reconciliation.service.ts leaves alone.
use open_neotrader.Base.{ℕ, String, ◌≡◌, refl, List}
use open_neotrader.Exec.Keeps.{Keeps, keeps_rules, Keeps-bind, Keeps-modify}
use open_neotrader.Store.Rows.{RealOrder, TradeIntent, Alert}
use open_neotrader.Store.World.{World, Db}
use open_neotrader.Store.Calls.{now, db_call, read_db, kv_read, cancel_order, create_alert}
use open_neotrader.Reconciliation.Sweep.{
  read_stale_timeout_ms, cancel_stale_order, cancel_stale_open_orders,
}

-- the tables of orders and intents
abbrev pub LedgerTablesAre : List RealOrder → List TradeIntent → World → Type 0
LedgerTablesAre orders intents w = (w.db.orders ≡ orders) × (w.db.intents ≡ intents)

module _ (orders : List RealOrder) (intents : List TradeIntent) where
  Keeps-now : Keeps (LedgerTablesAre orders intents) now
  unfolding now
  Keeps-now = record { at = λ w h. h }

  Keeps-db_call : Keeps (LedgerTablesAre orders intents) db_call
  unfolding db_call
  Keeps-db_call = record { at = λ w h. h }

  Keeps-cancel_order :
      (broker order : ℕ) → Keeps (LedgerTablesAre orders intents) (cancel_order broker order)
  unfolding cancel_order
  Keeps-cancel_order broker order = record { at = λ w h. h }

  Keeps-read_db : {A : Type 0} (f : Db → A) → Keeps (LedgerTablesAre orders intents) (read_db f)
  unfolding read_db
  Keeps-read_db f = search (keeps_rules, Keeps-db_call)

  Keeps-kv_read : (k : String) → Keeps (LedgerTablesAre orders intents) (kv_read k)
  unfolding kv_read
  Keeps-kv_read k = search (keeps_rules, Keeps-db_call)

  Keeps-create_alert : (alert : Alert) → Keeps (LedgerTablesAre orders intents) (create_alert alert)
  unfolding create_alert
  Keeps-create_alert alert = Keeps-bind _ _ Keeps-db_call (λ _. Keeps-modify _ (λ w h. h))

  ruleset stale_rules =
      (keeps_rules, Keeps-now, Keeps-read_db, Keeps-kv_read, Keeps-cancel_order, Keeps-create_alert)

  Keeps-cancel_stale_order :
      (row : RealOrder) → Keeps (LedgerTablesAre orders intents) (cancel_stale_order row)
  unfolding cancel_stale_order
  Keeps-cancel_stale_order row = search stale_rules depth 14

  Keeps-read_stale_timeout_ms : Keeps (LedgerTablesAre orders intents) read_stale_timeout_ms
  unfolding read_stale_timeout_ms
  Keeps-read_stale_timeout_ms = search stale_rules depth 14

  Keeps-cancel_stale_open_orders : Keeps (LedgerTablesAre orders intents) cancel_stale_open_orders
  unfolding cancel_stale_open_orders
  Keeps-cancel_stale_open_orders =
      search (stale_rules, Keeps-read_stale_timeout_ms, Keeps-cancel_stale_order) depth 14

-- The sweep of stale orders only asks: whatever is answered, and even where it throws, it leaves every
-- order and every intent as it was, so that no status is written but by the reconciliation.
pub cancel_stale_open_orders-LedgerTablesAre :
    (w : World) → LedgerTablesAre w.db.orders w.db.intents (cancel_stale_open_orders w).1
cancel_stale_open_orders-LedgerTablesAre w =
    (Keeps-cancel_stale_open_orders w.db.orders w.db.intents).at w (refl, refl)
