-- ===== src/Tests/Orders.antt =====
-- Submissions, recoveries and whole runs.
use open_neotrader.Base.{◌≡◌, refl, none, List, [], ◌∷◌, arith}
use open_neotrader.Common.Kv.{kv_bool, unwrap_kv}
use open_neotrader.Common.Halt.{IsHalted}
use open_neotrader.Store.Rows.{Status}
use open_neotrader.Store.Index.{index_holds, compatible_all, compatible, is_terminal}
use open_neotrader.Store.World.{World, placed_ids}
use open_neotrader.RealOrder.Submit.{
  submit, is_for_intent, is_for_symbol, record_submit_failure_and_maybe_halt, pending_row,
}
use open_neotrader.RealOrder.Safety.{StaysHalted}
use open_neotrader.RealOrder.Once.{IsSound}
use open_neotrader.RealOrder.Guards.{submit_reaches_broker, third_failure-IsHalted}
use open_neotrader.Reconciliation.Tick.Safety.{recover, ticks, adopts, upkeep, upkeep-placed_ids}
use open_neotrader.System.{
  Operation, submits, upkeeps, records, approves, sets_policy, run_all, run_all-IsSound,
  run_all-StaysHalted,
}
use open_neotrader.Tests.Intents.{dto, patch}
use open_neotrader.Tests.{world_of, halted_world, order_at, args, external_works}

abbrev operations : List Operation
operations =
    submits args
    ∷ upkeeps ticks
    ∷ submits (record args { trade_intent_id = 2; symbol = 6 })
    ∷ upkeeps recover
    ∷ records dto
    ∷ sets_policy patch
    ∷ approves 1 "operator"
    ∷ []

run_all-IsSound_example : IsSound (run_all operations (world_of []))
unfolding index_holds
run_all-IsSound_example = run_all-IsSound operations (world_of []) (refl, tt, tt)

upkeep-placed_ids_example :
    placed_ids (upkeep (adopts 5 1 none) (world_of (order_at Status.submit_failed ∷ []))).1.told
    ≡ []
upkeep-placed_ids_example =
    upkeep-placed_ids (adopts 5 1 none) (world_of (order_at Status.submit_failed ∷ []))

halted_world-IsHalted : IsHalted halted_world
unfolding kv_bool unwrap_kv
halted_world-IsHalted = refl

run_all-StaysHalted_example : StaysHalted (run_all operations halted_world)
run_all-StaysHalted_example =
    run_all-StaysHalted operations halted_world (refl, halted_world-IsHalted)

-- an earlier order of the intent that failed is no obstacle
submit_reaches_broker_example :
    placed_ids (submit args (world_of (order_at Status.rejected ∷ []))).1.told ≡ 202 ∷ []
unfolding is_for_intent is_for_symbol is_terminal index_holds compatible_all compatible pending_row
submit_reaches_broker_example =
    submit_reaches_broker args (world_of (order_at Status.rejected ∷ [])) external_works (refl, tt)
      (refl, tt) refl

abbrev twice_failed : World
twice_failed = record (world_of []) { failure_times = 0 ∷ 0 ∷ [] }

third_failure-IsHalted_example : IsHalted (record_submit_failure_and_maybe_halt twice_failed).1
third_failure-IsHalted_example =
    third_failure-IsHalted twice_failed external_works refl (ground arith)

abbrev failed_world : World
failed_world = world_of (order_at Status.submit_failed ∷ [])

abbrev twice_absent : World
twice_absent = record failed_world { absent_counts = (1, 2) ∷ [] }
