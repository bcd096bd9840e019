-- ===== src/RealOrder/Safety.antt =====
-- Safety of the order service over every choice of answers from outside: what it tells the broker,
-- and the kill-switch.
use open_neotrader.Base.{◌≡◌, refl}
use open_neotrader.Common.Kv.{kv_bool, not_string, kv_get-kv_put}
use open_neotrader.Common.Halt.{IsHalted}
use open_neotrader.Store.World.{World, placed_ids}
use open_neotrader.Store.Calls.Footprint.{Stable, OutsideIs-Stable}
use open_neotrader.RealOrder.Submit.{SubmitArgs, submit}
use open_neotrader.RealOrder.Recover.{recover_inflight}
use open_neotrader.RealOrder.Keeps.{Haltable, Keeps-recover_inflight, Keeps-submit}

-- Recovery never asks the broker to place an order: whatever the broker, the database and the clock
-- answer, the placements made are the same before and after `recoverInflight`.
pub recover_inflight-placed_ids :
    (w : World) → placed_ids (recover_inflight w).1.told ≡ placed_ids w.told
recover_inflight-placed_ids w =
    ((Keeps-recover_inflight (OutsideIs-Stable w.external (placed_ids w.told))).at w (refl, refl)).1

-- The kill-switch reads as set, and `JSON.parse` does not make a string of the text `true`.
abbrev pub StaysHalted : World → Type 0
StaysHalted w = (w.external.readers.json_parse "true" ≡ not_string) × IsHalted w

pub StaysHalted-Stable : Stable StaysHalted
StaysHalted-Stable = record {
  at_drift = λ v w ext told orders kv h. rw (ext, kv) h;
  at_orders = λ rows w e k h. h;
  at_cancel = λ broker order w h. h;
  at_rollback = λ before w o hb h. rw o.0 hb;
}

pub StaysHalted-Haltable : Haltable StaysHalted
unfolding kv_bool
StaysHalted-Haltable = record {
  at_flag = λ w h. (h.0, rw (kv_get-kv_put, h.0) refl);
  at_reason = λ reason w h. (h.0, rw kv_get-kv_put h.1);
}

-- Once halted, halted: no run of `submit` clears the kill-switch.
pub submit-StaysHalted :
    (args : SubmitArgs) (w : World) → StaysHalted w → StaysHalted (submit args w).1
submit-StaysHalted args w h =
    (Keeps-submit StaysHalted-Stable StaysHalted-Haltable (λ b r v k. k) args).at w h
