-- ===== src/Tests/Loop.antt =====
-- The circuit breaker and the interval.
use open_neotrader.Base.{◌≡◌, refl, some, []}
use open_neotrader.Exec.{ok, database}
use open_neotrader.Common.Halt.{IsHalted}
use open_neotrader.Store.Rows.{Breaker, open_phase, half_open}
use open_neotrader.Store.World.{World}
use open_neotrader.Reconciliation.Tick.{closed_cb, handle_tick_failure}
use open_neotrader.Reconciliation.Tick.Circuit.{handle_tick_failure-IsHalted}
use open_neotrader.Reconciliation.Tick.{reconcile_and_record}
use open_neotrader.Reconciliation.Tick.Progress.{IsHealed, reconcile_and_record-heals}
use open_neotrader.Tests.{world_of, external_works}

abbrev open_cb : Breaker
open_cb = record closed_cb { phase = open_phase; last_failure_at = some 0 }

abbrev open_world : World
open_world = let w = world_of [] in record w { db = record w.db { breaker = some open_cb } }

abbrev probing : Breaker
probing = record closed_cb { phase = half_open }

handle_tick_failure-IsHalted_example :
    IsHalted (handle_tick_failure database probing (world_of [])).1
handle_tick_failure-IsHalted_example =
    handle_tick_failure-IsHalted database probing (world_of []) external_works refl refl refl

reconcile_and_record-heals_example :
    ((reconcile_and_record probing (world_of [])).0 ≡ ok tt)
    × ((after : Breaker) × ((reconcile_and_record probing (world_of [])).1.db.breaker ≡ some after)
        × IsHealed (world_of []).external.now probing after)
reconcile_and_record-heals_example = reconcile_and_record-heals probing (world_of []) external_works
