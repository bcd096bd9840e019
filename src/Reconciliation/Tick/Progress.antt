-- ===== src/Reconciliation/Tick/Progress.antt =====
-- What a tick comes to where the database works.
use open_neotrader.Base.{ℕ, suc, ◌≡◌, refl, none, some, List, [], ◌∷◌}
use open_neotrader.Exec.{ok, ◌>>=◌, for_each, quietly}
use open_neotrader.Store.Rows.{Breaker, closed}
use open_neotrader.Store.World.{World, Action, Done, placed_ids}
use open_neotrader.Store.Calls.{now, read_db, db_call, write_breaker}
use open_neotrader.Store.Calls.Footprint.{OutsideIs-Stable}
use open_neotrader.RealOrder.Recover.{recover_inflight}
use open_neotrader.RealOrder.Guards.{DatabaseWorks}
use open_neotrader.RealOrder.Keeps.{Keeps-recover_inflight}
use open_neotrader.Reconciliation.Apply.{reconcile_order}
use open_neotrader.Reconciliation.Sweep.{cancel_stale_open_orders, reconcile_all_open_orders}
use open_neotrader.Reconciliation.Keeps.{
  Keeps-reconcile_all_open_orders, Keeps-cancel_stale_open_orders,
}
use open_neotrader.Reconciliation.Tick.{after_success, reconcile_and_record}

quiet_loop :
    {A : Type 0} (xs : List A) (f : A → Action Done) (w : World)
    → (for_each xs (λ x. quietly (f x)) w).0 ≡ ok tt
unfolding for_each ◌>>=◌
quiet_loop [] f w = refl
quiet_loop (x ∷ xs) f w = quiet_loop xs f (f x w).1

external_kept :
    (w : World) → (cancel_stale_open_orders (recover_inflight w).1).1.external ≡ w.external
external_kept w =
    let outside = OutsideIs-Stable w.external (placed_ids w.told) in
    ((Keeps-cancel_stale_open_orders outside).at (recover_inflight w).1
      ((Keeps-recover_inflight outside).at w (refl, refl))).0

reconcile_all_open_orders-ok :
    (w : World) → DatabaseWorks w → (reconcile_all_open_orders w).0 ≡ ok tt
unfolding reconcile_all_open_orders read_db db_call ◌>>=◌
reconcile_all_open_orders-ok w works =
    rw (external_kept w, works (cancel_stale_open_orders (recover_inflight w).1).1.calls_made)
      (quiet_loop _ (λ r. reconcile_order r.id) _)

-- A healed breaker: closed, no failures counted, no reason, the last success at a time of the clock and
-- the last failure as it was.
abbrev pub IsHealed : (ℕ → ℕ) → Breaker → Breaker → Type 0
IsHealed clock before after =
    (after.phase ≡ closed)
    × (after.consecutive_failures ≡ 0)
    × (after.reason ≡ none)
    × (after.last_failure_at ≡ before.last_failure_at)
    × ((n : ℕ) × (after.last_success_at ≡ some (clock n)))

-- One working tick heals the breaker: where the database works, whatever the broker answers, the
-- guarded part of a tick ends without a fault and leaves a breaker that is closed, with no failures
-- counted and no reason, its last success at a time that the clock told and its last failure kept.
pub reconcile_and_record-heals :
    (cb : Breaker) (w : World)
    → DatabaseWorks w
    → ((reconcile_and_record cb w).0 ≡ ok tt)
      × ((after : Breaker) × ((reconcile_and_record cb w).1.db.breaker ≡ some after)
          × IsHealed w.external.now cb after)
unfolding reconcile_and_record now write_breaker db_call ◌>>=◌
reconcile_and_record-heals cb w works =
    let swept = (reconcile_all_open_orders w).1 in
    let outside = OutsideIs-Stable w.external (placed_ids w.told) in
    let kept = ((Keeps-reconcile_all_open_orders outside).at w (refl, refl)).0 in
    let time = w.external.now swept.calls_made in
    rw (reconcile_all_open_orders-ok w works, kept, works (suc swept.calls_made))
      (refl, (after_success cb time, refl, (refl, refl, refl, refl, (swept.calls_made, refl))))
