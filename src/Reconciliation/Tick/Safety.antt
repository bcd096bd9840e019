-- ===== src/Reconciliation/Tick/Safety.antt =====
-- What the operations of the order service and of the reconciliation service but `submit` keep, over
-- every choice of answers from outside.
use open_neotrader.Base.{String, ℕ, ◌≡◌, refl, Option}
use open_neotrader.Exec.{skip, ◌>>◌}
use open_neotrader.Exec.Keeps.{Keeps, Keeps-bind, Keeps-skip}
use open_neotrader.Store.Rows.{SyncSource}
use open_neotrader.Store.World.{World, Action, Done, placed_ids}
use open_neotrader.Store.Calls.Footprint.{Stable, OutsideIs-Stable}
use open_neotrader.RealOrder.Recover.{recover_inflight}
use open_neotrader.RealOrder.Keeps.{Haltable, Keeps-recover_inflight}
use open_neotrader.RealOrder.Guards.{OutsideIs-Haltable}
use open_neotrader.Reconciliation.Apply.{fast_poll_order}
use open_neotrader.Reconciliation.Keeps.{Keeps-fast_poll_order}
use open_neotrader.Reconciliation.Portfolio.Sync.{sync_portfolio}
use open_neotrader.Reconciliation.Portfolio.Adopt.{adopt_broker_position}
use open_neotrader.Reconciliation.Portfolio.Keeps.{
  Keeps-sync_portfolio, Keeps-adopt_broker_position,
}
use open_neotrader.Reconciliation.Tick.{tick, on_module_init}
use open_neotrader.Reconciliation.Tick.Keeps.{Keeps-tick, Keeps-on_module_init}

-- The operations of the two services but `submit` and the operator's clearing of the kill-switch.
pub data Upkeep : Type 0 where
  recover start ticks : Upkeep
  polls : ℕ → Upkeep
  syncs : ℕ → SyncSource → Upkeep
  adopts : ℕ → ℕ → Option String → Upkeep

abbrev pub upkeep : Upkeep → Action Done
upkeep recover = recover_inflight
upkeep start = on_module_init >> skip
upkeep ticks = tick
upkeep (polls id) = fast_poll_order id
upkeep (syncs broker source) = sync_portfolio broker source >> skip
upkeep (adopts symbol broker remark) = adopt_broker_position symbol broker remark >> skip

pub Keeps-upkeep :
    {P : World → Type 0} (s : Stable P) (t : Haltable P) (u : Upkeep) → Keeps P (upkeep u)
Keeps-upkeep s t recover = Keeps-recover_inflight s
Keeps-upkeep s t start = Keeps-bind _ _ (Keeps-on_module_init s t) (λ _. Keeps-skip)
Keeps-upkeep s t ticks = Keeps-tick s t
Keeps-upkeep s t (polls id) = Keeps-fast_poll_order s id
Keeps-upkeep s t (syncs broker source) =
    Keeps-bind _ _ (Keeps-sync_portfolio s t broker source) (λ _. Keeps-skip)
Keeps-upkeep s t (adopts symbol broker remark) =
    Keeps-bind _ _ (Keeps-adopt_broker_position s t symbol broker remark) (λ _. Keeps-skip)

-- Only `submit` places orders: recovery, startup, a reconciliation tick, the fast poll of an order,
-- a portfolio sync and the adoption of a position leave the list of the orders that the broker was
-- asked to place as it is, whatever is answered and even where the operation throws.
pub upkeep-placed_ids :
    (u : Upkeep) (w : World) → placed_ids (upkeep u w).1.told ≡ placed_ids w.told
upkeep-placed_ids u w =
    ((Keeps-upkeep (OutsideIs-Stable w.external (placed_ids w.told)) OutsideIs-Haltable u).at w
      (refl, refl)).1
