-- ===== src/RealOrder/Guards.antt =====
-- The guards of `submit` in real-order.service.ts, and the kill-switch that failures trip.
use open_neotrader.Base.{
  String, ltb, length-append, ℕ, suc, ◌≤◌, ◌≡◌, refl, Bool, true, false, none, some, List, [], ◌∷◌,
  ◌++◌, arith, All, find, length, select, leb, ◌-◌,
}
use open_neotrader.Exec.{Result, ok, err, on_result, ◌>>=◌}
use open_neotrader.Common.Kv.{kv_bool, not_string, kv_get-kv_put}
use open_neotrader.Common.Halt.{IsHalted, halt_real_execution}
use open_neotrader.Store.Rows.{RealOrder, PlaceRequest, PlaceResponse}
use open_neotrader.Store.Index.{index_holds}
use open_neotrader.Store.World.{World, External, placed_ids}
use open_neotrader.Store.Calls.{
  now, new_id, db_call, read_db, change_orders, create_order, place_order, kv_write,
  change_failure_times,
}
use open_neotrader.Store.Calls.Footprint.{OutsideIs, OutsideIs-Stable}
use open_neotrader.RealOrder.Submit.{
  SubmitArgs, submit_failure_window_ms, is_for_intent, is_for_symbol, find_latest,
  find_active_order_for_intent, find_active_order_for_symbol, generate_client_order_id,
  record_submit_failure_and_maybe_halt, pending_row, request_of, place_and_record, record_placed,
  record_not_placed, create_and_place, submit,
}
use open_neotrader.RealOrder.Keeps.{Haltable, Keeps-record_placed, Keeps-record_not_placed}

abbrev pub DatabaseWorks : World → Type 0
DatabaseWorks w = (n : ℕ) → w.external.db_works n ≡ true

find-none : {A : Type 0} (p : A → Bool) (xs : List A) → All (λ x. p x ≡ false) xs → find p xs ≡ none
find-none p [] h = refl
find-none p (x ∷ xs) h = rw h.0 (find-none p xs h.1)

find_latest-none :
    (p : RealOrder → Bool) (xs : List RealOrder)
    → All (λ x. p x ≡ false) xs
    → find_latest p xs ≡ none
unfolding find_latest
find_latest-none p [] h = refl
find_latest-none p (x ∷ xs) h = rw (find_latest-none p xs h.1, h.0)

-- A second submission for an intent with an open order returns that order: the tables and what the
-- broker was told stay as they were.
pub submit_open_intent :
    (args : SubmitArgs) (w : World) {row : RealOrder}
    → w.external.db_works w.calls_made ≡ true
    → find (is_for_intent args.trade_intent_id) w.db.orders ≡ some row
    → submit args w ≡ (ok row, record w { calls_made = suc w.calls_made })
unfolding submit find_active_order_for_intent read_db db_call ◌>>=◌
submit_open_intent args w works open_row = rw (works, open_row)

pub OutsideIs-Haltable : {e : External} {ids : List ℕ} → Haltable (OutsideIs e ids)
OutsideIs-Haltable = record { at_flag = λ w h. h; at_reason = λ reason w h. h }

place_and_record-placed_ids :
    (args : SubmitArgs) (row : RealOrder) (w : World)
    → placed_ids (place_and_record args row w).1.told ≡ row.client_order_id ∷ placed_ids w.told
unfolding place_and_record place_order ◌>>=◌ request_of
place_and_record-placed_ids args row w = after (place_order args.broker_plugin_id request w).0
  where
    request : PlaceRequest
    request = request_of args row.client_order_id

    told : World
    told = (place_order args.broker_plugin_id request w).1

    ids : List ℕ
    ids = row.client_order_id ∷ placed_ids w.told

    after :
        (r : Result PlaceResponse)
        → placed_ids (on_result r (record_placed row) (record_not_placed row) told).1.told ≡ ids
    after (ok a) =
        ((Keeps-record_placed (OutsideIs-Stable w.external ids) OutsideIs-Haltable row a).at told
          (refl, refl)).1
    after (err e) =
        ((Keeps-record_not_placed (OutsideIs-Stable w.external ids) OutsideIs-Haltable row e).at
          told (refl, refl)).1

-- the row that `submit` commits when its first call is number `n`
abbrev pub next_row : SubmitArgs → World → RealOrder
next_row args w =
    let n = w.calls_made in
    pending_row args (w.external.new_id (suc (suc (suc n))))
      (w.external.client_order_id (suc (suc n)) args.trade_intent_id)
      (w.external.now (suc (suc (suc (suc n)))))

-- An order reaches the broker whenever the database works, the row fits the unique indexes, and no
-- open row is for the same intent, nor for the same symbol, broker and side. So an open buy never
-- keeps a sell of the same symbol from the broker: a position can be closed.
pub submit_reaches_broker :
    (args : SubmitArgs) (w : World)
    → DatabaseWorks w
    → All (λ r. is_for_intent args.trade_intent_id r ≡ false) w.db.orders
    → All (λ r. is_for_symbol args.symbol args.broker_plugin_id args.side r ≡ false) w.db.orders
    → index_holds (w.db.orders ++ next_row args w ∷ []) ≡ true
    → placed_ids (submit args w).1.told ≡ (next_row args w).client_order_id ∷ placed_ids w.told
unfolding submit find_active_order_for_intent find_active_order_for_symbol read_db db_call ◌>>=◌
    create_and_place generate_client_order_id new_id now create_order change_orders
submit_reaches_broker args w works no_intent no_symbol fits =
    rw
      (
        works w.calls_made,
        find-none (is_for_intent args.trade_intent_id) w.db.orders no_intent,
        works (suc w.calls_made),
        find_latest-none (is_for_symbol args.symbol args.broker_plugin_id args.side) w.db.orders
            no_symbol,
        works (suc (suc (suc (suc (suc w.calls_made))))),
        fits,
      )
      (place_and_record-placed_ids args (next_row args w) _)

pub halt-IsHalted :
    (reason : String) (w : World)
    → DatabaseWorks w
    → w.external.readers.json_parse "true" ≡ not_string
    → IsHalted (halt_real_execution reason w).1
unfolding halt_real_execution kv_write db_call ◌>>=◌ kv_bool
halt-IsHalted reason w works plain =
    rw (works w.calls_made, works (suc w.calls_made), kv_get-kv_put, kv_get-kv_put, plain)

three_of :
    (times : List ℕ) (time : ℕ) → 2 ≤ length times → ltb (length (times ++ time ∷ [])) 3 ≡ false
three_of times time h = ground (arith, length-append times (time ∷ []))

-- The third failure within the window halts real execution, where the key-value table can be
-- written: two earlier failures no older than five minutes and this one set the kill-switch.
pub third_failure-IsHalted :
    (w : World)
    → DatabaseWorks w
    → w.external.readers.json_parse "true" ≡ not_string
    → 2
      ≤ length (
          select
            (λ t. leb (w.external.now w.calls_made - t) submit_failure_window_ms)
            w.failure_times)
    → IsHalted (record_submit_failure_and_maybe_halt w).1
unfolding record_submit_failure_and_maybe_halt now change_failure_times ◌>>=◌
third_failure-IsHalted w works plain enough =
    rw (three_of _ (w.external.now w.calls_made) enough) (halt-IsHalted _ _ works plain)
