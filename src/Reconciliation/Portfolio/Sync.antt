-- ===== src/Reconciliation/Portfolio/Sync.antt =====
-- `syncPortfolio`, `detectDrift` and the two places that start a sync in
-- real-broker-reconciliation.service.ts.
use open_neotrader.Base.{
  ℕ, String, Bool, true, false, not, ◌&&◌, Option, none, some, List, [], ◌∷◌, ◌==◌, ◌-◌, ltb,
  if◌then◌else◌, select, some_of,
}
use open_neotrader.Number.{Number, num_lt, num_max, zero_num}
use open_neotrader.Exec.{
  pure, gets, attempt, skip, quietly, ◌>>=◌, ◌>>◌, on_option, on_result, for_each,
}
use open_neotrader.Common.Kv.{Readers, kv_str}
use open_neotrader.Common.Halt.{halt_real_execution}
use open_neotrader.Store.Rows.{
  RealOrder, Position, Portfolio, RealPosition, SyncSource, poll, startup_reconcile, NavSnapshot,
  Alert, AlertType, broker_drift, critical, reconciliation_halted, custom,
}
use open_neotrader.Store.World.{Action, Done}
use open_neotrader.Store.Calls.{
  now, read_db, transaction, kv_read, get_portfolio, set_last_sync, create_alert, write_positions,
  create_snapshot,
}
use open_neotrader.Reconciliation.Sweep.{or_null}

-- `realPosition.deleteMany`: rows of this broker whose symbol it no longer reports
abbrev pub drop_unreported : ℕ → List Position → List RealPosition → List RealPosition
drop_unreported broker positions rows =
    select
      (λ r.
        not ((r.broker_plugin_id == broker) && not (some_of (λ p. p.symbol == r.symbol) positions)))
      rows

-- `realPosition.upsert`, by the symbol alone
unfoldable pub upsert_position : ℕ → Position → List RealPosition → List RealPosition
upsert_position broker p [] = record { broker_plugin_id = broker; position = p } ∷ []
upsert_position broker p (r ∷ rows) =
    if r.symbol == p.symbol
    then record { broker_plugin_id = broker; position = p } ∷ rows
    else r ∷ upsert_position broker p rows

-- the peak before this snapshot: `prevSnapshot?.hwm ?? portfolio.equity`
abbrev pub previous_hwm : ℕ → Number → List NavSnapshot → Number
previous_hwm broker equity [] = equity
previous_hwm broker equity (s ∷ snapshots) =
    if s.broker_plugin_id == broker then s.hwm else previous_hwm broker equity snapshots

abbrev pub snapshot_of : ℕ → Portfolio → SyncSource → Number → ℕ → NavSnapshot
snapshot_of broker p source hwm time = record {
  broker_plugin_id = broker;
  equity = p.equity;
  cash = p.cash;
  buying_power = p.buying_power;
  positions = p.positions;
  total_pnl = p.total_pnl;
  hwm = hwm;
  source = source;
  ts = time;
}

unfoldable pub write_portfolio : ℕ → SyncSource → Portfolio → Action Done
write_portfolio broker source p = transaction (do
  write_positions (drop_unreported broker p.positions)
  for_each p.positions (λ position. write_positions (upsert_position broker position))
  hwm ← read_db (λ db. previous_hwm broker p.equity db.snapshots)
  create_snapshot (snapshot_of broker p source (num_max hwm p.equity)))

-- an order that filled, in part at least, accounts for the broker's position
abbrev pub explains : ℕ → ℕ → RealOrder → Bool
explains symbol broker r =
    (r.symbol == symbol) && ((r.broker_plugin_id == broker) && num_lt zero_num r.filled_qty)

abbrev names : ℕ → Option ℕ → Bool
names symbol none = false
names symbol (some other) = other == symbol

abbrev is_drift : AlertType → Bool
is_drift broker_drift = true
is_drift reconciliation_halted = false
is_drift custom = false

abbrev pub is_open_drift_alert : ℕ → Alert → Bool
is_open_drift_alert symbol a = is_drift a.kind && names symbol a.symbol

unfoldable pub alert_drift : List Alert → ℕ → Action Done
alert_drift active symbol =
    if some_of (is_open_drift_alert symbol) active
    then skip
    else quietly (
        create_alert (record {
          kind = broker_drift;
          severity = critical;
          symbol = some symbol;
          resolved = false;
        }))

-- the loop of `detectDrift`
unfoldable pub drifted_symbols : List Alert → ℕ → List Position → Action (List ℕ)
drifted_symbols active broker [] = pure []
drifted_symbols active broker (p ∷ positions) = do
  let rest : Action (List ℕ) = drifted_symbols active broker positions
  explained ← read_db (λ db. some_of (explains p.symbol broker) db.orders)
  if explained
      then rest
      else alert_drift active p.symbol >> (rest >>= λ symbols. pure (p.symbol ∷ symbols))

unfoldable pub halt_if_drifted : List ℕ → Action Done
halt_if_drifted [] = skip
halt_if_drifted (_ ∷ _) = quietly (halt_real_execution "broker position drift detected")

-- `detectDrift`
unfoldable pub detect_drift : List Position → ℕ → Action (List ℕ)
detect_drift [] broker = pure []
detect_drift (p ∷ positions) broker = do
  active ← read_db (λ db. select (λ a. not a.resolved) db.alerts)
  drifted ← drifted_symbols active broker (p ∷ positions)
  halt_if_drifted drifted
  pure drifted

-- `syncPortfolio`
unfoldable pub sync_portfolio : ℕ → SyncSource → Action (List ℕ)
sync_portfolio broker source = do
  fetched ← attempt (get_portfolio broker)
  on_result fetched (λ p. write_portfolio broker source p >> detect_drift p.positions broker)
      (λ _. pure [])

abbrev pub broker_plugin_id_key : String
broker_plugin_id_key = "execution.broker_plugin_id"

abbrev pub trimmed : Readers → Option String → Option ℕ
trimmed readers none = none
trimmed readers (some s) = readers.identifier s

-- `_resolveBrokerPluginId`, none for the empty text
unfoldable pub resolve_broker_plugin_id : Action (Option ℕ)
resolve_broker_plugin_id = do
  readers ← gets (λ w. w.external.readers)
  raw ← attempt (kv_read broker_plugin_id_key)
  pure (trimmed readers (kv_str readers (or_null raw)))

unfoldable pub sync_quietly : ℕ → SyncSource → Action Done
sync_quietly broker source = quietly (do sync_portfolio broker source; skip)

-- `_syncPortfolioAtStartup`
unfoldable pub sync_portfolio_at_startup : Action Done
sync_portfolio_at_startup = do
  broker ← resolve_broker_plugin_id
  on_option broker (λ b. do time ← now; set_last_sync time; sync_quietly b startup_reconcile) skip

abbrev portfolio_sync_throttle_ms : ℕ
portfolio_sync_throttle_ms = 60000

-- `now - last` is negative, so below the bound, where the clock was set back.
abbrev pub is_throttled : ℕ → Option ℕ → Bool
is_throttled time none = false
is_throttled time (some last) = ltb (time - last) portfolio_sync_throttle_ms

-- `_maybeSyncPortfolioOnTick`
unfoldable pub maybe_sync_portfolio_on_tick : Action Done
maybe_sync_portfolio_on_tick = do
  broker ← resolve_broker_plugin_id
  on_option broker
      (λ b. do
        time ← now
        last ← gets (λ w. w.last_sync)
        if is_throttled time last then skip else set_last_sync time >> sync_quietly b poll)
      skip
