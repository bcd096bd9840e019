-- ===== src/System.antt =====
-- The safety of whole runs: any sequence of the operations of the trade intent service, the order
-- service and the reconciliation service, over every choice of answers from outside.
use open_neotrader.Base.{String, ℕ, List, [], ◌∷◌}
use open_neotrader.Exec.{skip, ◌>>◌}
use open_neotrader.Exec.Keeps.{Keeps, Keeps-bind, Keeps-skip}
use open_neotrader.Common.Kv.{kv_get-kv_put}
use open_neotrader.Store.World.{World, Action, Done}
use open_neotrader.Store.Calls.Footprint.{Stable}
use open_neotrader.RealOrder.Submit.{SubmitArgs, submit}
use open_neotrader.RealOrder.Keeps.{Haltable, Keeps-submit}
use open_neotrader.RealOrder.Safety.{StaysHalted, StaysHalted-Stable, StaysHalted-Haltable}
use open_neotrader.RealOrder.Once.{IsSound, IsSound-Stable, IsSound-Haltable, submit-IsSound}
use open_neotrader.Reconciliation.Tick.Safety.{Upkeep, upkeep, Keeps-upkeep}
use open_neotrader.TradeIntent.Policy.{PolicyPatch, set_policy}
use open_neotrader.TradeIntent.Process.{approve, reject, auto_process}
use open_neotrader.TradeIntent.Record.{IntentDto, record_intent}
use open_neotrader.TradeIntent.Keeps.{Keeps-reject}
use open_neotrader.TradeIntent.Whole.{
  Configurable, Keeps-process_intent, Keeps-record_intent, Keeps-set_policy,
}

-- A step of the system: all that the services do but the operator's clearing of the kill-switch. A fault
-- ends the step, not the run.
pub data Operation : Type 0 where
  submits : SubmitArgs → Operation
  upkeeps : Upkeep → Operation
  records : IntentDto → Operation
  processes : ℕ → Operation
  approves : ℕ → String → Operation
  rejects : ℕ → String → String → Operation
  sets_policy : PolicyPatch → Operation

abbrev pub perform : Operation → Action Done
perform (submits args) = submit args >> skip
perform (upkeeps u) = upkeep u
perform (records dto) = record_intent dto >> skip
perform (processes id) = auto_process id >> skip
perform (approves id by) = approve id by >> skip
perform (rejects id by reason) = reject id by reason >> skip
perform (sets_policy patch) = set_policy patch >> skip

abbrev pub run_all : List Operation → World → World
run_all [] w = w
run_all (o ∷ operations) w = run_all operations (perform o w).1

module _ {P : World → Type 0} (s : Stable P) (t : Haltable P) (c : Configurable P)
    (placing : (args : SubmitArgs) → Keeps P (submit args)) where
  Keeps-perform : (o : Operation) → Keeps P (perform o)
  unfolding auto_process approve
  Keeps-perform (submits args) = Keeps-bind _ _ (placing args) (λ _. Keeps-skip)
  Keeps-perform (upkeeps u) = Keeps-upkeep s t u
  Keeps-perform (records dto) = Keeps-bind _ _ (Keeps-record_intent s placing dto) (λ _. Keeps-skip)
  Keeps-perform (processes id) =
      Keeps-bind _ _ (Keeps-process_intent s placing _ _ id) (λ _. Keeps-skip)
  Keeps-perform (approves id by) =
      Keeps-bind _ _ (Keeps-process_intent s placing _ _ id) (λ _. Keeps-skip)
  Keeps-perform (rejects id by reason) =
      Keeps-bind _ _ (Keeps-reject s id by reason) (λ _. Keeps-skip)
  Keeps-perform (sets_policy patch) = Keeps-bind _ _ (Keeps-set_policy s c patch) (λ _. Keeps-skip)

  Keeps-run_all : (operations : List Operation) (w : World) → P w → P (run_all operations w)
  Keeps-run_all [] w h = h
  Keeps-run_all (o ∷ operations) w h = Keeps-run_all operations _ ((Keeps-perform o).at w h)

IsSound-Configurable : Configurable IsSound
IsSound-Configurable = record { at_setting = λ k v w other h. h }

StaysHalted-Configurable : Configurable StaysHalted
StaysHalted-Configurable = record {
  at_setting = λ k v w other h. (h.0, rw (kv_get-kv_put, other) h.1);
}

-- Every sequence of operations keeps the world sound: whatever intents are recorded, decided and
-- executed, and whatever is submitted, polled, synced, recovered, adopted and configured, the order
-- table's uniqueness holds, each id placed at the broker is the id of a row, and no client order id is
-- placed twice.
pub run_all-IsSound :
    (operations : List Operation) (w : World) → IsSound w → IsSound (run_all operations w)
run_all-IsSound operations w h =
    Keeps-run_all IsSound-Stable IsSound-Haltable IsSound-Configurable
      (λ args. record { at = submit-IsSound args }) operations w h

-- The kill-switch is never cleared automatically: a world where it reads as set, and where
-- `JSON.parse` does not make a string of the text `true`, is one after every sequence of operations,
-- those of the trade intent service and of the policy included.
pub run_all-StaysHalted :
    (operations : List Operation) (w : World) → StaysHalted w → StaysHalted (run_all operations w)
run_all-StaysHalted operations w h =
    Keeps-run_all StaysHalted-Stable StaysHalted-Haltable StaysHalted-Configurable
      (Keeps-submit StaysHalted-Stable StaysHalted-Haltable (λ b r v k. k)) operations w h
