-- ===== src/Tests/Holdings.antt =====
-- Syncs of the portfolio, drift and adoption.
use open_neotrader.Base.{◌≡◌, refl, [], ◌∷◌}
use open_neotrader.Exec.{ok}
use open_neotrader.Common.Halt.{IsHalted}
use open_neotrader.Reconciliation.Portfolio.Sync.{detect_drift}
use open_neotrader.Reconciliation.Portfolio.Drift.{detect_drift-unexplained, detect_drift-IsHalted}
use open_neotrader.Tests.{world_of, portfolio, external_works}

detect_drift-unexplained_example :
    (detect_drift portfolio.positions 1 (world_of [])).0 ≡ ok (5 ∷ [])
detect_drift-unexplained_example =
    detect_drift-unexplained portfolio.positions 1 (world_of []) external_works

detect_drift-IsHalted_example : IsHalted (detect_drift portfolio.positions 1 (world_of [])).1
detect_drift-IsHalted_example =
    detect_drift-IsHalted portfolio.positions 1 (world_of []) external_works refl refl
