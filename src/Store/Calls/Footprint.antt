-- ===== src/Store/Calls/Footprint.antt =====
-- What each call can change of the world. A predicate that stands the changes listed in `Stable` is
-- kept by every call but an order's placement, so an invariant of a whole service is a matter of its
-- few closure facts.
use open_neotrader.Base.{
  ℕ, suc, String, ◌≡◌, refl, Bool, true, false, List, [], ◌∷◌, ◌++◌, update_where,
}
use open_neotrader.Exec.{Result, ok, err, modify}
use open_neotrader.Exec.Keeps.{
  Keeps, keeps_rules, Keeps-bind, Keeps-modify, Keeps-gets, Keeps-on_option, Keeps-pure,
  Keeps-raise, Keeps-quietly,
}
use open_neotrader.Execution.Account.{Account}
use open_neotrader.Store.Rows.{
  RealOrder, TradeIntent, Status, Breaker, Alert, RealPosition, NavSnapshot,
}
use open_neotrader.Store.Index.{
  index_holds, Retains, SameClient, Retains-append, Retains-update_where,
}
use open_neotrader.Store.World.{External, placed_ids, World, Db, Action, cancel}
use open_neotrader.Store.Calls.{
  now, new_id, db_call, read_db, change_orders, create_order, update_order, update_order_if,
  update_intent, settle, transaction, kv_read, get_order_by_client_id, get_order_status,
  cancel_order, get_portfolio, change_failure_times, change_absent_counts, set_tick_running,
  set_last_sync, get_quote, change_intent, write_paper, write_audit, create_alert, create_intent,
  write_positions, create_snapshot, write_breaker,
}

-- The outside world, and the orders that the broker was asked to place.
abbrev pub OutsideIs : External → List ℕ → World → Type 0
OutsideIs e ids w = (w.external ≡ e) × (placed_ids w.told ≡ ids)

pub record Stable (P : World → Type 0) : Type 0 where
  -- what the process keeps, and the tables that no law mentions
  pub at_drift :
      (v w : World)
      → v.external ≡ w.external
      → v.told ≡ w.told
      → v.db.orders ≡ w.db.orders
      → v.db.kv ≡ w.db.kv
      → P w
      → P v
  pub at_orders :
      (rows : List RealOrder) (w : World)
      → index_holds rows ≡ true
      → Retains w.db.orders rows
      → P w
      → P (record w { db = record w.db { orders = rows } })
  pub at_cancel :
      (broker order : ℕ) (w : World) → P w → P (record w { told = cancel broker order ∷ w.told })
  pub at_rollback :
      (before : World) (w : World)
      → OutsideIs before.external (placed_ids before.told) w
      → P before
      → P w
      → P (record w { db = before.db })

module _ {P : World → Type 0} (s : Stable P) where
  ticked : (n : ℕ) (w : World) → P w → P (record w { calls_made = n })
  ticked n w h = s.at_drift _ w refl refl refl refl h

  pub Keeps-now : Keeps P now
  unfolding now
  Keeps-now = record { at = λ w h. ticked (suc w.calls_made) w h }

  pub Keeps-new_id : Keeps P new_id
  unfolding new_id
  Keeps-new_id = record { at = λ w h. ticked (suc w.calls_made) w h }

  pub Keeps-db_call : Keeps P db_call
  unfolding db_call
  Keeps-db_call = record { at = λ w h. ticked (suc w.calls_made) w h }

  pub Keeps-get_order_by_client_id : (b c : ℕ) → Keeps P (get_order_by_client_id b c)
  unfolding get_order_by_client_id
  Keeps-get_order_by_client_id b c = record { at = λ w h. ticked (suc w.calls_made) w h }

  pub Keeps-get_order_status : (b o : ℕ) → Keeps P (get_order_status b o)
  unfolding get_order_status
  Keeps-get_order_status b o = record { at = λ w h. ticked (suc w.calls_made) w h }

  pub Keeps-get_portfolio : (b : ℕ) → Keeps P (get_portfolio b)
  unfolding get_portfolio
  Keeps-get_portfolio b = record { at = λ w h. ticked (suc w.calls_made) w h }

  pub Keeps-cancel_order : (b o : ℕ) → Keeps P (cancel_order b o)
  unfolding cancel_order
  Keeps-cancel_order b o = record { at = λ w h. ticked (suc w.calls_made) _ (s.at_cancel b o w h) }

  changed :
      (f : List RealOrder → List RealOrder) (w : World) (b : Bool)
      → index_holds (f w.db.orders) ≡ b
      → Retains w.db.orders (f w.db.orders)
      → P w
      → P (change_orders f w).1
  unfolding change_orders
  changed f w true e k h = rw e (s.at_orders (f w.db.orders) w e k h)
  changed f w false e k h = rw e h

  pub Keeps-change_orders :
      (f : List RealOrder → List RealOrder)
      → ((rows : List RealOrder) → Retains rows (f rows))
      → Keeps P (change_orders f)
  Keeps-change_orders f k = record {
    at = λ w h. changed f w (index_holds (f w.db.orders)) refl (k w.db.orders) h;
  }

  Keeps-add_row : (row : RealOrder) → Keeps P (change_orders (λ rows. rows ++ row ∷ []))
  Keeps-add_row row = Keeps-change_orders _ (λ rows. Retains-append rows row)

  Keeps-update_rows :
      (p : RealOrder → Bool) (f : RealOrder → RealOrder)
      → SameClient f
      → Keeps P (change_orders (update_where p f))
  Keeps-update_rows p f k = Keeps-change_orders _ (λ rows. Retains-update_where p f rows k)

  ruleset call_rules = (keeps_rules, Keeps-db_call, Keeps-add_row, Keeps-update_rows)

  pub Keeps-read_db : {A : Type 0} (f : Db → A) → Keeps P (read_db f)
  unfolding read_db
  Keeps-read_db f = search call_rules

  pub Keeps-kv_read : (k : String) → Keeps P (kv_read k)
  unfolding kv_read
  Keeps-kv_read k = search call_rules

  pub Keeps-create_order : (row : RealOrder) → Keeps P (create_order row)
  unfolding create_order
  Keeps-create_order row = search call_rules

  pub Keeps-update_order :
      (id : ℕ) (f : RealOrder → RealOrder) → SameClient f → Keeps P (update_order id f)
  unfolding update_order
  Keeps-update_order id f k = search call_rules depth 8

  pub Keeps-update_order_if :
      (id : ℕ) (st : Status) (f : RealOrder → RealOrder)
      → SameClient f
      → Keeps P (update_order_if id st f)
  unfolding update_order_if
  Keeps-update_order_if id st f k = search call_rules depth 8

  pub Keeps-set_intents :
      (rows : List TradeIntent)
      → Keeps P (modify (λ w. record w { db = record w.db { intents = rows } }))
  unfolding modify
  Keeps-set_intents rows = record { at = λ w h. s.at_drift _ w refl refl refl refl h }

  pub Keeps-update_intent : (id : ℕ) (f : TradeIntent → TradeIntent) → Keeps P (update_intent id f)
  unfolding update_intent
  Keeps-update_intent id f = search (call_rules, Keeps-set_intents) depth 8

  settled :
      {A : Type 0} (r : Result A) (before : World) (w : World)
      → OutsideIs before.external (placed_ids before.told) w
      → P before
      → P w
      → P (settle r before.db w).1
  settled (ok a) before w o hb h = h
  settled (err e) before w o hb h = s.at_rollback before w o hb h

  pub Keeps-transaction :
      {A : Type 0} (m : Action A)
      → Keeps P m
      → ((e : External) (ids : List ℕ) → Keeps (OutsideIs e ids) m)
      → Keeps P (transaction m)
  unfolding transaction
  Keeps-transaction m k o = record {
    at = λ w h.
        settled (m w).0 w (m w).1 ((o w.external (placed_ids w.told)).at w (refl, refl)) h
          (k.at w h);
  }

  pub Keeps-change_failure_times : (f : List ℕ → List ℕ) → Keeps P (change_failure_times f)
  unfolding change_failure_times modify
  Keeps-change_failure_times f = record { at = λ w h. s.at_drift _ w refl refl refl refl h }

  pub Keeps-change_absent_counts :
      (f : List (ℕ × ℕ) → List (ℕ × ℕ)) → Keeps P (change_absent_counts f)
  unfolding change_absent_counts modify
  Keeps-change_absent_counts f = record { at = λ w h. s.at_drift _ w refl refl refl refl h }

  pub Keeps-set_tick_running : (b : Bool) → Keeps P (set_tick_running b)
  unfolding set_tick_running modify
  Keeps-set_tick_running b = record { at = λ w h. s.at_drift _ w refl refl refl refl h }

  pub Keeps-set_last_sync : (time : ℕ) → Keeps P (set_last_sync time)
  unfolding set_last_sync modify
  Keeps-set_last_sync time = record { at = λ w h. s.at_drift _ w refl refl refl refl h }

  pub Keeps-create_alert : (alert : Alert) → Keeps P (create_alert alert)
  unfolding create_alert
  Keeps-create_alert alert =
      Keeps-bind _ _ Keeps-db_call
        (λ _. Keeps-modify _ (λ w h. s.at_drift _ w refl refl refl refl h))

  pub Keeps-create_intent : (intent : TradeIntent) → Keeps P (create_intent intent)
  unfolding create_intent
  Keeps-create_intent intent =
      Keeps-bind _ _ Keeps-db_call
        (λ _. Keeps-modify _ (λ w h. s.at_drift _ w refl refl refl refl h))

  pub Keeps-write_positions :
      (f : (List RealPosition → List RealPosition)) → Keeps P (write_positions f)
  unfolding write_positions
  Keeps-write_positions f =
      Keeps-bind _ _ Keeps-db_call
        (λ _. Keeps-modify _ (λ w h. s.at_drift _ w refl refl refl refl h))

  pub Keeps-create_snapshot : (snapshot : ℕ → NavSnapshot) → Keeps P (create_snapshot snapshot)
  unfolding create_snapshot
  Keeps-create_snapshot snapshot = Keeps-bind _ _ Keeps-db_call (λ _.
      Keeps-bind _ _ Keeps-now
        (λ time. Keeps-modify _ (λ w h. s.at_drift _ w refl refl refl refl h)))

  pub Keeps-write_breaker : (b : Breaker) → Keeps P (write_breaker b)
  unfolding write_breaker
  Keeps-write_breaker b =
      Keeps-bind _ _ Keeps-db_call
        (λ _. Keeps-modify _ (λ w h. s.at_drift _ w refl refl refl refl h))

  pub Keeps-get_quote : (y : ℕ) → Keeps P (get_quote y)
  unfolding get_quote
  Keeps-get_quote y = record { at = λ w h. ticked (suc w.calls_made) w h }

  pub Keeps-change_intent : (id : ℕ) (f : TradeIntent → TradeIntent) → Keeps P (change_intent id f)
  unfolding change_intent
  Keeps-change_intent id f = Keeps-bind _ _ Keeps-db_call (λ _.
      Keeps-bind _ _ (Keeps-gets _) (λ rows.
        Keeps-on_option _ _ _
          (λ t.
            Keeps-bind _ _ (Keeps-modify _ (λ w h. s.at_drift _ w refl refl refl refl h))
              (λ _. Keeps-pure _))
          (Keeps-raise _)))

  pub Keeps-write_paper : (a : Account) → Keeps P (write_paper a)
  unfolding write_paper
  Keeps-write_paper a =
      Keeps-bind _ _ Keeps-db_call
        (λ _. Keeps-modify _ (λ w h. s.at_drift _ w refl refl refl refl h))

  pub Keeps-write_audit : Keeps P write_audit
  unfolding write_audit
  Keeps-write_audit = Keeps-quietly _ Keeps-db_call

pub OutsideIs-Stable : (e : External) (ids : List ℕ) → Stable (OutsideIs e ids)
OutsideIs-Stable e ids = record {
  at_drift = λ v w ext told orders kv h. rw (ext, told) h;
  at_orders = λ rows w i k h. h;
  at_cancel = λ broker order w h. h;
  at_rollback = λ before w o hb h. h;
}
