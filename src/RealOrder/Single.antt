-- ===== src/RealOrder/Single.antt =====
-- What one call of `submit` in real-order.service.ts asks of the broker.
use open_neotrader.Base.{ℕ, ◌≡◌, refl, List, ◌∷◌, ◌⊎◌, inl, inr}
use open_neotrader.Exec.{attempt}
use open_neotrader.Exec.Keeps.{Keeps-pure, Keeps-on_result, Keeps-attempt}
use open_neotrader.Exec.Leads.{
  Leads, Leads-Keeps, Leads-bind, Leads-then, Leads-on_option, Leads-on_result,
}
use open_neotrader.Store.Rows.{PlaceRequest, RealOrder}
use open_neotrader.Store.World.{World, External, placements}
use open_neotrader.Store.Calls.{place_order}
use open_neotrader.Common.Kv.{Kv}
use open_neotrader.Store.Calls.Footprint.{Stable, Keeps-now, Keeps-new_id, Keeps-create_order}
use open_neotrader.RealOrder.Submit.{
  SubmitArgs, request_of, place_and_record, create_and_place, submit,
}
use open_neotrader.RealOrder.Keeps.{
  Haltable, Keeps-record_placed, Keeps-record_not_placed, Keeps-find_active_order_for_intent,
  Keeps-find_active_order_for_symbol, Keeps-resolve_race, Keeps-generate_client_order_id,
}

-- The outside world, the key-value table and the orders placed.
abbrev pub Seen : External → Kv → List (ℕ × PlaceRequest) → World → Type 0
Seen e kv orders w = (w.external ≡ e) × (w.db.kv ≡ kv) × (placements w.told ≡ orders)

-- No order more than these was placed, or one, of which `Good` holds.
abbrev pub OneMore : List (ℕ × PlaceRequest) → (ℕ → PlaceRequest → Type 0) → World → Type 0
OneMore orders Good w =
    (placements w.told ≡ orders)
    ⊎ ((b : ℕ) × (r : PlaceRequest) × (placements w.told ≡ (b, r) ∷ orders) × Good b r)

pub Seen-Stable :
    {e : External} {kv : Kv} {orders : List (ℕ × PlaceRequest)} → Stable (Seen e kv orders)
Seen-Stable = record {
  at_drift = λ v w ext told orders kv h. rw (ext, told, kv) h;
  at_orders = λ rows w i k h. h;
  at_cancel = λ broker order w h. h;
  at_rollback = λ before w o hb h. (h.0, hb.1, h.2);
}

module _ {orders : List (ℕ × PlaceRequest)} {Good : ℕ → PlaceRequest → Type 0} where
  pub OneMore-Stable : Stable (OneMore orders Good)
  OneMore-Stable = record {
    at_drift = λ v w ext told orders kv h. rw told h;
    at_orders = λ rows w i k h. h;
    at_cancel = λ broker order w h. h;
    at_rollback = λ before w o hb h. h;
  }

  pub OneMore-Haltable : Haltable (OneMore orders Good)
  OneMore-Haltable = record { at_flag = λ w h. h; at_reason = λ reason w h. h }

  module _ {e : External} {kv : Kv} where
    pub Seen-OneMore : (w : World) → Seen e kv orders w → OneMore orders Good w
    Seen-OneMore w h = inl h.2

    module _ (args : SubmitArgs)
        (good : (c : ℕ) → Good args.broker_plugin_id (request_of args c)) where
      placed_one :
          (c : ℕ)
          → Leads
              (Seen e kv orders)
              (OneMore orders Good)
              (place_order args.broker_plugin_id (request_of args c))
      unfolding place_order
      placed_one c = record { at = λ w h. inr (_, _, rw h.2 refl, good c) }

      Leads-place_and_record :
          (row : RealOrder)
          → Leads (Seen e kv orders) (OneMore orders Good) (place_and_record args row)
      unfolding place_and_record attempt
      Leads-place_and_record row =
          Leads-then _ _ (record { at = (placed_one row.client_order_id).at })
            (λ r.
              Keeps-on_result r _ _ (Keeps-record_placed OneMore-Stable OneMore-Haltable row)
                (Keeps-record_not_placed OneMore-Stable OneMore-Haltable row))

      Leads-create_and_place :
          Leads (Seen e kv orders) (OneMore orders Good) (create_and_place args)
      unfolding create_and_place
      Leads-create_and_place =
          Leads-bind _ _ Seen-OneMore (Keeps-generate_client_order_id Seen-Stable _) (λ client.
            Leads-bind _ _ Seen-OneMore (Keeps-new_id Seen-Stable) (λ id.
              Leads-bind _ _ Seen-OneMore (Keeps-now Seen-Stable) (λ time.
                Leads-bind _ _ Seen-OneMore (Keeps-attempt _ (Keeps-create_order Seen-Stable _))
                  (λ r. Leads-on_result r _ _ Leads-place_and_record (λ fault.
                    Leads-Keeps _ Seen-OneMore (Keeps-resolve_race Seen-Stable args fault))))))

      -- One submission asks the broker for one order at most, the one of its arguments.
      pub Leads-submit : Leads (Seen e kv orders) (OneMore orders Good) (submit args)
      unfolding submit
      Leads-submit =
          Leads-bind _ _ Seen-OneMore (Keeps-find_active_order_for_intent Seen-Stable _) (λ a.
            Leads-on_option a _ _ (λ row. Leads-Keeps _ Seen-OneMore (Keeps-pure row))
              (Leads-bind _ _ Seen-OneMore (Keeps-find_active_order_for_symbol Seen-Stable _ _ _)
                (λ b.
                  Leads-on_option b _ _ (λ row. Leads-Keeps _ Seen-OneMore (Keeps-pure row))
                    Leads-create_and_place)))
