-- ===== src/RealOrder/Once.antt =====
-- The client order ids that `submit` of real-order.service.ts places, against the rows of the table.
use open_neotrader.Base.{
  ℕ, ◌≡◌, refl, true, false, List, [], ◌∷◌, ◌++◌, arith, ◌==◌, All, Bool-cases, inl, inr,
}
use open_neotrader.Exec.{Result, ok, err, pure, ◌>>=◌, attempt, on_result}
use open_neotrader.Exec.Keeps.{Keeps, Keeps-bind}
use open_neotrader.Store.Rows.{RealOrder, PlaceResponse}
use open_neotrader.Store.Index.{
  has_client, index_holds, Retains, has_client-append_self, has_client-of_index, Retains-append,
}
use open_neotrader.Store.World.{World, placed_ids}
use open_neotrader.Store.Calls.{db_call, change_orders, create_order, place_order}
use open_neotrader.Store.Calls.Footprint.{Stable, Keeps-now, Keeps-new_id}
use open_neotrader.RealOrder.Submit.{
  SubmitArgs, pending_row, place_and_record, resolve_race, create_and_place, submit, record_placed,
  record_not_placed, request_of,
}
use open_neotrader.RealOrder.Keeps.{
  Haltable, Keeps-submit_of, Keeps-resolve_race, Keeps-record_placed, Keeps-record_not_placed,
  Keeps-generate_client_order_id,
}

abbrev pub Fresh : ℕ → List ℕ → Type 0
Fresh c ids = All (λ d. (c == d) ≡ false) ids

abbrev pub Distinct : List ℕ → Type 0
Distinct [] = Unit
Distinct (c ∷ ids) = Fresh c ids × Distinct ids

abbrev pub AreKnown : List ℕ → List RealOrder → Type 0
AreKnown ids rows = All (λ c. has_client c rows ≡ true) ids

-- The table is in order, every placed id is the id of a row, and none was placed twice.
abbrev pub IsSound : World → Type 0
IsSound w =
    (index_holds w.db.orders ≡ true)
    × AreKnown (placed_ids w.told) w.db.orders
    × Distinct (placed_ids w.told)

AreKnown-Retains :
    (ids : List ℕ) (before after : List RealOrder)
    → Retains before after
    → AreKnown ids before
    → AreKnown ids after
AreKnown-Retains [] before after k h = tt
AreKnown-Retains (c ∷ ids) before after k h = (k c h.0, AreKnown-Retains ids before after k h.1)

Fresh-of_known :
    (c : ℕ) (ids : List ℕ) (rows : List RealOrder)
    → AreKnown ids rows
    → has_client c rows ≡ false
    → Fresh c ids
Fresh-of_known c [] rows h no_row = tt
Fresh-of_known c (d ∷ ids) rows h no_row = (
  elim (Bool-cases (c == d)) [ inl e ↦ ground (arith, h.0) | inr e ↦ e ],
  Fresh-of_known c ids rows h.1 no_row,
)

pub IsSound-Stable : Stable IsSound
IsSound-Stable = record {
  at_drift = λ v w ext told orders kv h. rw (told, orders) h;
  at_orders = λ rows w e k h. (e, AreKnown-Retains (placed_ids w.told) w.db.orders _ k h.1, h.2);
  at_cancel = λ broker order w h. h;
  at_rollback = λ before w o hb h. rw o.1 hb;
}

pub IsSound-Haltable : Haltable IsSound
IsSound-Haltable = record { at_flag = λ w h. h; at_reason = λ reason w h. h }

-- The world is sound, and the id may be placed: a row has it and the broker was not told of it.
abbrev IsReady : ℕ → World → Type 0
IsReady c w = IsSound w × (has_client c w.db.orders ≡ true) × Fresh c (placed_ids w.told)

abbrev Created : RealOrder → Result RealOrder × World → Type 0
Created row (ok r, w) = (r ≡ row) × IsReady row.client_order_id w
Created row (err e, w) = IsSound w

add_row-Created :
    (row : RealOrder) (w : World)
    → IsSound w
    → Created row ((change_orders (λ rows. rows ++ row ∷ []) >>= λ _. pure row) w)
unfolding change_orders ◌>>=◌
add_row-Created row w h = elim (Bool-cases (index_holds (w.db.orders ++ row ∷ []))) [
  | inl e ↦ rw e (
    refl,
    (
      (
        e,
        AreKnown-Retains (placed_ids w.told) w.db.orders _ (Retains-append w.db.orders row) h.1,
        h.2,
      ),
      has_client-append_self w.db.orders row,
      Fresh-of_known row.client_order_id (placed_ids w.told) w.db.orders h.1
          (has_client-of_index w.db.orders row e),
    ),
  )
  | inr e ↦ rw e h
]

create_order-Created : (row : RealOrder) (w : World) → IsSound w → Created row (create_order row w)
unfolding create_order db_call ◌>>=◌
create_order-Created row w h = elim (Bool-cases (w.external.db_works w.calls_made)) [
  | inl e ↦ rw e (unfold ◌>>=◌ in add_row-Created row (db_call w).1 h)
  | inr e ↦ rw e h
]

module _ (args : SubmitArgs) where
  place_and_record-IsSound :
      (row : RealOrder) (w : World)
      → IsReady row.client_order_id w
      → IsSound (place_and_record args row w).1
  unfolding place_and_record place_order ◌>>=◌ request_of
  place_and_record-IsSound row w h =
      placed (place_order args.broker_plugin_id (request_of args row.client_order_id) w).0
    where
      told : World
      told = (place_order args.broker_plugin_id (request_of args row.client_order_id) w).1

      placed :
          (r : Result PlaceResponse)
          → IsSound (on_result r (record_placed row) (record_not_placed row) told).1
      placed (ok a) =
          (Keeps-record_placed IsSound-Stable IsSound-Haltable row a).at told
            (h.0.0, (h.1, h.0.1), (h.2, h.0.2))
      placed (err e) =
          (Keeps-record_not_placed IsSound-Stable IsSound-Haltable row e).at told
            (h.0.0, (h.1, h.0.1), (h.2, h.0.2))

  Created-IsSound :
      (row : RealOrder) (r : Result RealOrder) (w : World)
      → Created row (r, w)
      → IsSound (on_result r (place_and_record args) (resolve_race args) w).1
  unfolding on_result
  Created-IsSound row (ok r) w c = place_and_record-IsSound r w (rw c.0 c.1)
  Created-IsSound row (err e) w c = (Keeps-resolve_race IsSound-Stable args e).at w c

  Keeps-create_then :
      (row : RealOrder)
      → Keeps IsSound (
          attempt (create_order row) >>= λ r.
          on_result r (place_and_record args) (resolve_race args))
  unfolding ◌>>=◌
  Keeps-create_then row = record {
    at = λ w h.
        Created-IsSound row (create_order row w).0 (create_order row w).1
          (create_order-Created row w h);
  }

  Keeps-create_and_place : Keeps IsSound (create_and_place args)
  unfolding create_and_place
  Keeps-create_and_place =
      Keeps-bind _ _ (Keeps-generate_client_order_id IsSound-Stable args.trade_intent_id) λ client.
        Keeps-bind _ _ (Keeps-new_id IsSound-Stable) λ id.
          Keeps-bind _ _ (Keeps-now IsSound-Stable)
            λ time. Keeps-create_then (pending_row args id client time)

  -- `submit` keeps the world sound: the table's uniqueness holds, every id that the broker was asked to
  -- place is the id of a row, and no id was placed twice. It does so whatever the database, the broker
  -- and the identifier generator answer, on every path, faults included.
  pub submit-IsSound : (w : World) → IsSound w → IsSound (submit args w).1
  submit-IsSound w h =
      (Keeps-submit_of IsSound-Stable IsSound-Haltable args Keeps-create_and_place).at w h
