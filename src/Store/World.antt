-- ===== src/Store/World.antt =====
-- The state that the real-money services share: the tables, the fields that the services keep in
-- memory, and what the outside world will answer. `external` is a choice of every answer, by the
-- number of the call: the clock, each database call's success, the broker, the identifiers.
use open_neotrader.Base.{ℕ, String, Bool, Option, List, [], ◌∷◌}
use open_neotrader.Exec.{Exec, Fault}
use open_neotrader.Number.{Number}
use open_neotrader.Common.Kv.{Kv, Readers}
use open_neotrader.Execution.Account.{Arithmetic, GovernedPosition, Account}
use open_neotrader.Store.Rows.{
  RealOrder, TradeIntent, OrderStatus, PlaceResponse, PlaceRequest, Portfolio, RealPosition,
  NavSnapshot, Alert, Breaker, Strategy,
}

-- `getOrderStatus` and `getOrderByClientId`: they throw, confirm a 404, or return the order.
pub data Lookup : Type 0 where
  lookup_throws : Lookup
  not_found : Lookup
  found : OrderStatus → Lookup

-- `placeOrder` throws with a text or returns the broker's answer.
pub data Placement : Type 0 where
  place_throws : String → Placement
  placed : PlaceResponse → Placement

pub record External : Type 0 where
  pub readers : Readers
  pub db_works : ℕ → Bool
  pub now : ℕ → ℕ
  pub new_id : ℕ → ℕ
  pub client_order_id : ℕ → ℕ → ℕ
  pub placement : ℕ → PlaceRequest → Placement
  pub order_by_client_id : ℕ → ℕ → ℕ → Lookup
  pub order_status : ℕ → ℕ → ℕ → Option OrderStatus
  pub cancel_works : ℕ → ℕ → ℕ → Bool
  pub portfolio : ℕ → ℕ → Option Portfolio
  -- the message of what was thrown
  pub fault_text : Fault → String
  -- the JSON text that records an adoption, of its time and its note
  pub adoption_json : ℕ → Option String → String
  -- `getQuote`, by the number of the call and the symbol: the last price, none where it throws
  pub quote : ℕ → ℕ → Option Number
  -- the order in which quotes that are asked for together arrive
  pub arrival : ℕ → List GovernedPosition → List GovernedPosition
  -- the UTC day and the UTC week of a time
  pub day_of : ℕ → ℕ
  pub week_of : ℕ → ℕ
  -- the operations on doubles that round
  pub arithmetic : Arithmetic

pub record Db : Type 0 where
  pub orders : List RealOrder
  pub intents : List TradeIntent
  pub kv : Kv
  -- none where the key is missing or its text is no JSON
  pub breaker : Option Breaker
  pub alerts : List Alert
  pub positions : List RealPosition
  pub snapshots : List NavSnapshot
  -- the row `paper` of `portfolios`
  pub paper : Option Account
  pub strategies : List Strategy

-- What the broker has been told, newest first.
pub data BrokerCall : Type 0 where
  place : ℕ → PlaceRequest → BrokerCall
  cancel : ℕ → ℕ → BrokerCall

pub record World : Type 0 where
  pub external : External
  pub calls_made : ℕ
  pub db : Db
  pub told : List BrokerCall
  -- `submitFailureTimestamps`
  pub failure_times : List ℕ
  -- `confirmedAbsentCounts`
  pub absent_counts : List (ℕ × ℕ)
  pub tick_running : Bool
  -- `lastPortfolioSyncAt`
  pub last_sync : Option ℕ

abbrev pub Action : Type 0 → Type 0
Action = Exec World

abbrev pub Done : Type 0
Done = Unit {0}

-- the client order ids of the orders that the broker was asked to place, newest first
abbrev pub placed_ids : List BrokerCall → List ℕ
placed_ids [] = []
placed_ids (place b r ∷ told) = r.client_order_id ∷ placed_ids told
placed_ids (cancel b o ∷ told) = placed_ids told

-- the orders that the broker was asked to place, each with the broker's id, newest first
abbrev pub placements : List BrokerCall → List (ℕ × PlaceRequest)
placements [] = []
placements (place b r ∷ told) = (b, r) ∷ placements told
placements (cancel b o ∷ told) = placements told
