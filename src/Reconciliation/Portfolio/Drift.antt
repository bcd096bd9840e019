-- ===== src/Reconciliation/Portfolio/Drift.antt =====
-- What a sync of the portfolio writes, which positions it calls unexplained, and what an adoption
-- explains.
use open_neotrader.Base.{
  ℕ, suc, ◌≡◌, refl, ◌∙◌, false, not, List, [], ◌∷◌, if◌then◌else◌, select, some_of, Bool-cases,
  inl, inr,
}
use open_neotrader.Number.{num_lt, num_max, num_max_upper}
use open_neotrader.Exec.{ok, ◌>>=◌, ◌>>◌, for_each, skip, pure, quietly}
use open_neotrader.Common.Kv.{not_string}
use open_neotrader.Common.Halt.{IsHalted}
use open_neotrader.Store.Rows.{Position, Portfolio, RealPosition, SyncSource, Alert, RealOrder}
use open_neotrader.Store.World.{World, Action, Done}
use open_neotrader.Store.Calls.{
  now, read_db, db_call, transaction, write_positions, create_snapshot, create_alert,
}
use open_neotrader.RealOrder.Guards.{DatabaseWorks, halt-IsHalted}
use open_neotrader.Reconciliation.Portfolio.Sync.{
  drop_unreported, upsert_position, previous_hwm, snapshot_of, write_portfolio, explains,
  alert_drift, is_open_drift_alert, drifted_symbols, halt_if_drifted, detect_drift,
}

abbrev pub upsert_all : ℕ → List Position → List RealPosition → List RealPosition
upsert_all broker [] rows = rows
upsert_all broker (p ∷ ps) rows = upsert_all broker ps (upsert_position broker p rows)

-- the number of the next call, after one call for each element
abbrev counted : {A : Type 0} → List A → ℕ → ℕ
counted [] n = n
counted (x ∷ xs) n = counted xs (suc n)

abbrev positions_written : ℕ → List RealPosition → World → World
positions_written n rows w = record w { calls_made = n; db = record w.db { positions = rows } }

upsert_each :
    (broker : ℕ) (ps : List Position) (w : World)
    → DatabaseWorks w
    → for_each ps (λ p. write_positions (upsert_position broker p)) w
      ≡ (ok tt, positions_written (counted ps w.calls_made) (upsert_all broker ps w.db.positions) w)
unfolding for_each write_positions db_call ◌>>=◌ skip
upsert_each broker [] w works = refl
upsert_each broker (p ∷ ps) w works = rw (works w.calls_made) (
    upsert_each broker ps
      (positions_written (suc w.calls_made) (upsert_position broker p w.db.positions) w) works)

-- A sync replaces the broker's positions and appends one snapshot: where the database works, the
-- rows of this broker that it no longer reports are deleted, each reported position is written under
-- its symbol, and the new snapshot is dated by the last call and its peak is the larger of the last one's and the equity, so below
-- neither where it compares.
pub write_portfolio-db :
    (broker : ℕ) (source : SyncSource) (p : Portfolio) (w : World)
    → DatabaseWorks w
    → let hwm = num_max (previous_hwm broker p.equity w.db.snapshots) p.equity in
      let after = write_portfolio broker source p w in
      let time = w.external.now (suc (suc (counted p.positions (suc w.calls_made)))) in
      (after.0 ≡ ok tt)
      × (after.1.db.positions
          ≡ upsert_all broker p.positions (drop_unreported broker p.positions w.db.positions))
      × (after.1.db.snapshots ≡ snapshot_of broker p source hwm time ∷ w.db.snapshots)
      × (num_lt hwm (previous_hwm broker p.equity w.db.snapshots) ≡ false)
      × (num_lt hwm p.equity ≡ false)
unfolding write_portfolio transaction read_db create_snapshot db_call ◌>>=◌ write_positions now
write_portfolio-db broker source p w works =
    rw
      (
        works w.calls_made,
        upsert_each broker p.positions
            (positions_written (suc w.calls_made)
              (drop_unreported broker p.positions w.db.positions) w)
            works,
        works (counted p.positions (suc w.calls_made)),
        works (suc (counted p.positions (suc w.calls_made))),
      )
      (
        refl,
        refl,
        refl,
        (num_max_upper (previous_hwm broker p.equity w.db.snapshots) p.equity).0,
        (num_max_upper (previous_hwm broker p.equity w.db.snapshots) p.equity).1,
      )

-- the symbols of the positions that no filled order of this broker accounts for
abbrev pub unexplained : ℕ → List RealOrder → List Position → List ℕ
unexplained broker rows [] = []
unexplained broker rows (p ∷ ps) =
    if some_of (explains p.symbol broker) rows
    then unexplained broker rows ps
    else p.symbol ∷ unexplained broker rows ps

-- A change of the alerts and of nothing else.
abbrev OnlyAlerts : World → World → Type 0
OnlyAlerts before after = (after.external ≡ before.external) × (after.db.orders ≡ before.db.orders)

alert_drift-OnlyAlerts :
    (active : List Alert) (symbol : ℕ) (w : World)
    → ((alert_drift active symbol w).0 ≡ ok tt) × OnlyAlerts w (alert_drift active symbol w).1
unfolding alert_drift create_alert db_call ◌>>=◌
alert_drift-OnlyAlerts active symbol w =
    elim (Bool-cases (some_of (is_open_drift_alert symbol) active)) [
      | inl e ↦ rw e (refl, (refl, refl))
      | inr e ↦ elim (Bool-cases (w.external.db_works w.calls_made)) [
        | inl d ↦ rw (e, d) (refl, (refl, refl))
        | inr d ↦ rw (e, d) (refl, (refl, refl))
      ]
    ]

flag_then :
    (flag : Action Done) (rest : Action (List ℕ)) (symbol : ℕ) (w : World) {symbols : List ℕ}
    → (flag w).0 ≡ ok tt
    → (rest (flag w).1).0 ≡ ok symbols
    → (flag >> (rest >>= λ found. pure (symbol ∷ found))) w
      ≡ (ok (symbol ∷ symbols), (rest (flag w).1).1)
unfolding ◌>>=◌
flag_then flag rest symbol w flagged rested = rw (flagged, rested) refl

drifted_symbols-OnlyAlerts :
    (active : List Alert) (broker : ℕ) (ps : List Position) (w : World)
    → DatabaseWorks w
    → ((drifted_symbols active broker ps w).0 ≡ ok (unexplained broker w.db.orders ps))
      × OnlyAlerts w (drifted_symbols active broker ps w).1
unfolding drifted_symbols read_db db_call ◌>>=◌
drifted_symbols-OnlyAlerts active broker [] w works = (refl, (refl, refl))
drifted_symbols-OnlyAlerts active broker (p ∷ ps) w works =
    let next : World = record w { calls_made = suc w.calls_made } in
    let alerted = (alert_drift active p.symbol next).1 in
    let a = alert_drift-OnlyAlerts active p.symbol next in
    let ih = drifted_symbols-OnlyAlerts active broker ps in
    elim (Bool-cases (some_of (explains p.symbol broker) w.db.orders)) [
      | inl e ↦ rw (works w.calls_made, e) (ih next works)
      | inr e ↦
          let rested = ih alerted (rw a.1.0 works) in
          rw
            (
              works w.calls_made,
              e,
              flag_then (alert_drift active p.symbol) (drifted_symbols active broker ps) p.symbol
                  next a.0 rested.0,
            )
            (rw a.1.1 refl, (rested.1.0 ∙ a.1.0, rested.1.1 ∙ a.1.1))
    ]

halt_if_drifted-ok : (symbols : List ℕ) (w : World) → (halt_if_drifted symbols w).0 ≡ ok tt
unfolding halt_if_drifted skip quietly
halt_if_drifted-ok [] w = refl
halt_if_drifted-ok (x ∷ xs) w = refl

-- Drift is exactly what no filled order accounts for: where the database works, `detectDrift` returns
-- the symbols of the reported positions that have no order of this broker with a positive filled
-- quantity, in the broker's order, whether or not an alert of theirs could be written.
pub detect_drift-unexplained :
    (ps : List Position) (broker : ℕ) (w : World)
    → DatabaseWorks w
    → (detect_drift ps broker w).0 ≡ ok (unexplained broker w.db.orders ps)
unfolding detect_drift read_db db_call ◌>>=◌
detect_drift-unexplained [] broker w works = refl
detect_drift-unexplained (p ∷ ps) broker w works =
    let next : World = record w { calls_made = suc w.calls_made } in
    let active = select (λ a. not a.resolved) w.db.alerts in
    rw
      (
        works w.calls_made,
        (drifted_symbols-OnlyAlerts active broker (p ∷ ps) next works).0,
        halt_if_drifted-ok _ _,
      )
      refl

-- Drift stops real trading: where the database works, `JSON.parse` does not make a string of the text
-- `true`, and the broker reports a position that no filled order accounts for, the kill-switch reads
-- as set after `detectDrift`.
pub detect_drift-IsHalted :
    (ps : List Position) (broker : ℕ) (w : World) {symbol : ℕ} {symbols : List ℕ}
    → DatabaseWorks w
    → w.external.readers.json_parse "true" ≡ not_string
    → unexplained broker w.db.orders ps ≡ symbol ∷ symbols
    → IsHalted (detect_drift ps broker w).1
unfolding detect_drift read_db db_call ◌>>=◌ halt_if_drifted
detect_drift-IsHalted [] broker w works plain drifted = cc
detect_drift-IsHalted (p ∷ ps) broker w works plain drifted =
    let next : World = record w { calls_made = suc w.calls_made } in
    let active = select (λ a. not a.resolved) w.db.alerts in
    let found = drifted_symbols-OnlyAlerts active broker (p ∷ ps) next works in
    rw (works w.calls_made, found.0, drifted)
      (halt-IsHalted _ (drifted_symbols active broker (p ∷ ps) next).1 (rw found.1.0 works)
        (rw found.1.0 plain))
