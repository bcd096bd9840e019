-- ===== src/Store/Calls.antt =====
-- The calls that the services make: of the database, of the clock, and of the broker's gateway.
-- Every call of the database may fail; one that writes `real_orders` fails too where the table's
-- uniqueness would be broken.
pub mod Footprint
pub mod Costs
use open_neotrader.Base.{
  ℕ, suc, String, Bool, true, false, Option, none, some, List, [], ◌∷◌, ◌++◌, if◌then◌else◌, ◌==◌,
  find, some_of, update_where, is_yes, ◌&&◌,
}
use open_neotrader.Exec.{
  Fault, database, unique_violation, record_not_found, gateway, Result, ok, err, pure, raise, gets,
  modify, quietly, ◌>>=◌, ◌>>◌, on_option,
}
use open_neotrader.Number.{Number}
use open_neotrader.Execution.Account.{Account}
use open_neotrader.Common.Kv.{kv_get, kv_put, kv_remove}
use open_neotrader.Store.Rows.{
  Status, Status-discrete, OrderStatus, RealOrder, TradeIntent, PlaceRequest, PlaceResponse,
  Portfolio, RealPosition, NavSnapshot, Alert, Breaker,
}
use open_neotrader.Store.Index.{index_holds}
use open_neotrader.Store.World.{
  Lookup, lookup_throws, not_found, found, Placement, place_throws, placed, World, Db, place,
  cancel, Action, Done,
}

-- `Date.now()`
unfoldable pub now : Action ℕ
now w = (ok (w.external.now w.calls_made), record w { calls_made = suc w.calls_made })

-- a fresh primary key, `cuid()`
unfoldable pub new_id : Action ℕ
new_id w = (ok (w.external.new_id w.calls_made), record w { calls_made = suc w.calls_made })

-- `this.db…`: the call may fail
unfoldable pub db_call : Action Done
db_call w = (
  if w.external.db_works w.calls_made then ok tt else err database,
  record w { calls_made = suc w.calls_made },
)

unfoldable pub read_db : {A : Type 0} → (Db → A) → Action A
read_db f = db_call >> gets (λ w. f w.db)

-- a write of `real_orders`, refused where a unique index would be broken
unfoldable pub change_orders : (List RealOrder → List RealOrder) → Action Done
change_orders f w =
    if index_holds (f w.db.orders)
    then (ok tt, record w { db = record w.db { orders = f w.db.orders } })
    else (err unique_violation, w)

-- `realOrder.create`
unfoldable pub create_order : RealOrder → Action RealOrder
create_order row = do db_call; change_orders (λ rows. rows ++ row ∷ []); pure row

-- `realOrder.update({ where: { id } })`
unfoldable pub update_order : ℕ → (RealOrder → RealOrder) → Action RealOrder
update_order id f = do
  db_call
  rows ← gets (λ w. w.db.orders)
  on_option (find (λ r. r.id == id) rows)
      (λ r. do change_orders (update_where (λ s. s.id == id) f); pure (f r))
      (raise record_not_found)

-- `realOrder.updateMany({ where: { id, status } })`: whether a row was changed
unfoldable pub update_order_if : ℕ → Status → (RealOrder → RealOrder) → Action Bool
update_order_if id status f = do
  db_call
  rows ← gets (λ w. w.db.orders)
  let matches : RealOrder → Bool = λ r. r.id == id && is_yes (Status-discrete r.status status)
  change_orders (update_where matches f)
  pure (some_of matches rows)

-- `tradeIntent.update({ where: { id } })`
unfoldable pub update_intent : ℕ → (TradeIntent → TradeIntent) → Action Done
update_intent id f = do
  db_call
  intents ← gets (λ w. w.db.intents)
  if some_of (λ t. t.id == id) intents
      then modify (λ w. record w {
        db = record w.db { intents = update_where (λ t. t.id == id) f intents };
      })
      else raise record_not_found

abbrev settle : {A : Type 0} → Result A → Db → World → Result A × World
settle (ok a) before w = (ok a, w)
settle (err e) before w = (err e, record w { db = before })

-- `$transaction`: a fault undoes what was written to the tables
unfoldable pub transaction : {A : Type 0} → Action A → Action A
transaction m w = settle (m w).0 w.db (m w).1

abbrev pub set_kv : String → String → World → World
set_kv k v w = record w { db = record w.db { kv = kv_put k v w.db.kv } }

-- `KvService.get`
unfoldable pub kv_read : String → Action (Option String)
kv_read k = db_call >> gets (λ w. kv_get k w.db.kv)

-- `KvService.set`
unfoldable pub kv_write : String → String → Action Done
kv_write k v = db_call >> modify (set_kv k v)

-- `KvService.delete`, which logs a failure and returns
unfoldable pub kv_erase : String → Action Done
kv_erase k =
    quietly (db_call >> modify (λ w. record w { db = record w.db { kv = kv_remove k w.db.kv } }))

abbrev outcome : Lookup → Result (Option OrderStatus)
outcome lookup_throws = err (gateway "order lookup failed")
outcome not_found = ok none
outcome (found o) = ok (some o)

-- `gateway.getOrderByClientId`
unfoldable pub get_order_by_client_id : ℕ → ℕ → Action (Option OrderStatus)
get_order_by_client_id broker client w = (
  outcome (w.external.order_by_client_id w.calls_made broker client),
  record w { calls_made = suc w.calls_made },
)

abbrev known : Option OrderStatus → Result (Option OrderStatus)
known none = err (gateway "order lookup failed")
known (some o) = ok (some o)

-- `gateway.getOrderStatus`, which never confirms a 404
unfoldable pub get_order_status : ℕ → ℕ → Action (Option OrderStatus)
get_order_status broker order w = (
  known (w.external.order_status w.calls_made broker order),
  record w { calls_made = suc w.calls_made },
)

-- `gateway.cancelOrder`
unfoldable pub cancel_order : ℕ → ℕ → Action Done
cancel_order broker order w = (
  if w.external.cancel_works w.calls_made broker order
      then ok tt
      else err (gateway "cancel failed"),
  record w { calls_made = suc w.calls_made; told = cancel broker order ∷ w.told },
)

abbrev response : Placement → Result PlaceResponse
response (place_throws e) = err (gateway e)
response (placed r) = ok r

-- `gateway.placeOrder`; that it throws does not say that the broker has no order
unfoldable pub place_order : ℕ → PlaceRequest → Action PlaceResponse
place_order broker request w = (
  response (w.external.placement w.calls_made request),
  record w { calls_made = suc w.calls_made; told = place broker request ∷ w.told },
)

abbrev portfolio_or_throw : Option Portfolio → Result Portfolio
portfolio_or_throw none = err (gateway "portfolio unavailable")
portfolio_or_throw (some p) = ok p

-- `gateway.getPortfolio`
unfoldable pub get_portfolio : ℕ → Action Portfolio
get_portfolio broker w = (
  portfolio_or_throw (w.external.portfolio w.calls_made broker),
  record w { calls_made = suc w.calls_made },
)

-- Writes of a service's own fields.
unfoldable pub change_failure_times : (List ℕ → List ℕ) → Action Done
change_failure_times f = modify (λ w. record w { failure_times = f w.failure_times })

unfoldable pub change_absent_counts : (List (ℕ × ℕ) → List (ℕ × ℕ)) → Action Done
change_absent_counts f = modify (λ w. record w { absent_counts = f w.absent_counts })

unfoldable pub set_tick_running : Bool → Action Done
set_tick_running b = modify (λ w. record w { tick_running = b })

unfoldable pub set_last_sync : ℕ → Action Done
set_last_sync time = modify (λ w. record w { last_sync = some time })

abbrev pub quoted : Option Number → Result Number
quoted none = err (gateway "quote unavailable")
quoted (some q) = ok q

-- `gateway.getQuote(null, symbol)`
unfoldable pub get_quote : ℕ → Action Number
get_quote symbol w =
    (quoted (w.external.quote w.calls_made symbol), record w { calls_made = suc w.calls_made })

-- `tradeIntent.update({ where: { id } })`, whose result is the new row
unfoldable pub change_intent : ℕ → (TradeIntent → TradeIntent) → Action TradeIntent
change_intent id f = do
  db_call
  intents ← gets (λ w. w.db.intents)
  on_option (find (λ t. t.id == id) intents)
      (λ t. do
        modify (λ w. record w {
          db = record w.db { intents = update_where (λ s. s.id == id) f intents };
        })
        pure (f t))
      (raise record_not_found)

-- the upsert of the portfolio named `paper`
unfoldable pub write_paper : Account → Action Done
write_paper account =
    db_call >> modify (λ w. record w { db = record w.db { paper = some account } })

-- an entry of the audit log, whose failure is ignored; its table is no part of the model
unfoldable pub write_audit : Action Done
write_audit = quietly db_call

-- `alertEntry.create`
unfoldable pub create_alert : Alert → Action Done
create_alert alert =
    db_call >> modify (λ w. record w { db = record w.db { alerts = alert ∷ w.db.alerts } })

-- writes of the tables `trade_intents`, `real_positions` and `real_nav_snapshots`
unfoldable pub create_intent : TradeIntent → Action Done
create_intent intent =
    db_call >> modify (λ w. record w { db = record w.db { intents = w.db.intents ++ intent ∷ [] } })

unfoldable pub write_positions : (List RealPosition → List RealPosition) → Action Done
write_positions f =
    db_call >> modify (λ w. record w { db = record w.db { positions = f w.db.positions } })

-- newest first; the database dates the row
unfoldable pub create_snapshot : (ℕ → NavSnapshot) → Action Done
create_snapshot snapshot = do
  db_call
  time ← now
  modify (λ w. record w { db = record w.db { snapshots = snapshot time ∷ w.db.snapshots } })

-- the circuit breaker's key of the key-value table
unfoldable pub write_breaker : Breaker → Action Done
write_breaker breaker =
    db_call >> modify (λ w. record w { db = record w.db { breaker = some breaker } })
