-- ===== src/Reconciliation/Portfolio/Keeps.antt =====
-- What the operations on the broker's positions keep.
use open_neotrader.Base.{ℕ, if◌then◌else◌, String, Option, List, [], ◌∷◌, some_of}
use open_neotrader.Exec.{skip, ◌>>◌}
use open_neotrader.Exec.Keeps.{
  Keeps, keeps_rules, Keeps-bind, Keeps-if, Keeps-skip, Keeps-quietly, Keeps-pure, Keeps-gets,
}
use open_neotrader.Store.Rows.{Position, Portfolio, SyncSource, poll, Alert}
use open_neotrader.Store.World.{World}
use open_neotrader.Store.Calls.{set_last_sync}
use open_neotrader.Store.Calls.Footprint.{
  Stable, Keeps-now, Keeps-new_id, Keeps-read_db, Keeps-kv_read, Keeps-create_order,
  Keeps-get_portfolio, Keeps-set_last_sync, Keeps-create_alert, Keeps-create_intent,
  Keeps-write_positions, Keeps-create_snapshot,
}
use open_neotrader.RealOrder.Keeps.{Haltable, Keeps-halt_real_execution}
use open_neotrader.Reconciliation.Keeps.{Keeps-atomically}
use open_neotrader.Reconciliation.Portfolio.Sync.{
  write_portfolio, is_open_drift_alert, alert_drift, drifted_symbols, halt_if_drifted, detect_drift,
  sync_portfolio, resolve_broker_plugin_id, sync_quietly, sync_portfolio_at_startup, is_throttled,
  maybe_sync_portfolio_on_tick,
}
use open_neotrader.Reconciliation.Portfolio.Adopt.{
  adopted_rows, write_adoption, adopt_broker_position,
}

module _ {P : World → Type 0} (s : Stable P) where
  Keeps-write_portfolio :
      (broker : ℕ) (source : SyncSource) (p : Portfolio) → Keeps P (write_portfolio broker source p)
  unfolding write_portfolio
  Keeps-write_portfolio broker source p = Keeps-atomically s _ λ Q t.
      search (keeps_rules, Keeps-write_positions, Keeps-read_db, Keeps-create_snapshot) depth 14

  Keeps-alert_drift : (active : List Alert) (symbol : ℕ) → Keeps P (alert_drift active symbol)
  unfolding alert_drift
  Keeps-alert_drift active symbol =
      Keeps-if (some_of (is_open_drift_alert symbol) active) _ _ Keeps-skip
        (Keeps-quietly _ (Keeps-create_alert s _))

  Keeps-drifted_symbols :
      (active : List Alert) (broker : ℕ) (positions : List Position)
      → Keeps P (drifted_symbols active broker positions)
  unfolding drifted_symbols
  Keeps-drifted_symbols active broker [] = Keeps-pure _
  Keeps-drifted_symbols active broker (p ∷ positions) =
      Keeps-bind _ _ (Keeps-read_db s _) λ explained.
        Keeps-if explained _ _ (Keeps-drifted_symbols active broker positions) (
          Keeps-bind _ _ (Keeps-alert_drift active p.symbol)
            λ _. Keeps-bind _ _ (Keeps-drifted_symbols active broker positions) λ _. Keeps-pure _)

  Keeps-adopted_rows :
      (p : Position) (symbol broker client time : ℕ) (json : String)
      → Keeps P (adopted_rows p symbol broker client time json)
  unfolding adopted_rows
  Keeps-adopted_rows p symbol broker client time json =
      search (keeps_rules, Keeps-new_id, Keeps-create_intent, Keeps-create_order) depth 14

module _ {P : World → Type 0} (s : Stable P) where
  Keeps-write_adoption :
      (symbol broker : ℕ) (remark : Option String) (p : Position)
      → Keeps P (write_adoption symbol broker remark p)
  unfolding write_adoption
  Keeps-write_adoption symbol broker remark p = Keeps-bind _ _ (Keeps-gets _) λ json.
      Keeps-bind _ _ (Keeps-now s) λ time. Keeps-bind _ _ (Keeps-new_id s) λ client.
        Keeps-atomically s _
          (λ Q t. Keeps-adopted_rows t p symbol broker client time (json time remark))

  Keeps-resolve_broker_plugin_id : Keeps P resolve_broker_plugin_id
  unfolding resolve_broker_plugin_id
  Keeps-resolve_broker_plugin_id = search (keeps_rules, Keeps-kv_read) depth 14

module _ {P : World → Type 0} (s : Stable P) (t : Haltable P) where
  Keeps-halt_if_drifted : (symbols : List ℕ) → Keeps P (halt_if_drifted symbols)
  unfolding halt_if_drifted
  Keeps-halt_if_drifted [] = Keeps-skip
  Keeps-halt_if_drifted (x ∷ xs) = Keeps-quietly _ (Keeps-halt_real_execution s t _)

  Keeps-detect_drift :
      (positions : List Position) (broker : ℕ) → Keeps P (detect_drift positions broker)
  unfolding detect_drift
  Keeps-detect_drift [] broker = Keeps-pure _
  Keeps-detect_drift (p ∷ positions) broker =
      search (keeps_rules, Keeps-read_db, Keeps-drifted_symbols, Keeps-halt_if_drifted) depth 14

  pub Keeps-sync_portfolio :
      (broker : ℕ) (source : SyncSource) → Keeps P (sync_portfolio broker source)
  unfolding sync_portfolio
  Keeps-sync_portfolio broker source =
      search (keeps_rules, Keeps-get_portfolio, Keeps-write_portfolio, Keeps-detect_drift) depth 14

  pub Keeps-adopt_broker_position :
      (symbol broker : ℕ) (remark : Option String)
      → Keeps P (adopt_broker_position symbol broker remark)
  unfolding adopt_broker_position
  Keeps-adopt_broker_position symbol broker remark =
      search (keeps_rules, Keeps-get_portfolio, Keeps-write_adoption, Keeps-sync_portfolio) depth 14

  Keeps-sync_quietly : (broker : ℕ) (source : SyncSource) → Keeps P (sync_quietly broker source)
  unfolding sync_quietly
  Keeps-sync_quietly broker source = search (keeps_rules, Keeps-sync_portfolio) depth 14

  pub Keeps-sync_portfolio_at_startup : Keeps P sync_portfolio_at_startup
  unfolding sync_portfolio_at_startup
  Keeps-sync_portfolio_at_startup =
      search
        (
          keeps_rules, Keeps-now, Keeps-set_last_sync, Keeps-resolve_broker_plugin_id,
          Keeps-sync_quietly,
        )
        depth 14

  Keeps-sync_unless :
      (time : ℕ) (last : Option ℕ) (b : ℕ)
      → Keeps P (if is_throttled time last then skip else set_last_sync time >> sync_quietly b poll)
  Keeps-sync_unless time last b =
      Keeps-if (is_throttled time last) _ _ Keeps-skip
        (search (keeps_rules, Keeps-set_last_sync, Keeps-sync_quietly) depth 14)

  pub Keeps-maybe_sync_portfolio_on_tick : Keeps P maybe_sync_portfolio_on_tick
  unfolding maybe_sync_portfolio_on_tick
  Keeps-maybe_sync_portfolio_on_tick =
      search (keeps_rules, Keeps-now, Keeps-resolve_broker_plugin_id, Keeps-sync_unless) depth 14
