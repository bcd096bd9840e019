-- ===== src/RealOrder/Keeps.antt =====
-- What the service's operations keep: recovery keeps all that `Stable` lists, and submission too
-- where the placement of an order and the kill-switch are among the changes stood.
use open_neotrader.Base.{◌+◌, ltb, ℕ, String, refl, ◌∷◌}
use open_neotrader.Exec.{Fault, unique_violation}
use open_neotrader.Exec.Keeps.{Keeps, keeps_rules, Keeps-gets, Keeps-if, Keeps-bind, Keeps-modify}
use open_neotrader.Common.Halt.{halted_key, halt_reason_key, halt_real_execution}
use open_neotrader.Store.Rows.{RealOrder, OrderStatus, PlaceRequest, PlaceResponse, Side}
use open_neotrader.Store.Index.{SameClient}
use open_neotrader.Store.World.{World, place}
use open_neotrader.Store.Calls.{kv_write, set_kv, now, place_order}
use open_neotrader.Store.Calls.Footprint.{
  Stable, Keeps-now, Keeps-new_id, Keeps-read_db, Keeps-create_order, Keeps-update_order,
  Keeps-get_order_by_client_id, Keeps-db_call, Keeps-change_failure_times,
  Keeps-change_absent_counts,
}
use open_neotrader.RealOrder.Submit.{
  mark_submitted, mark_submit_failed, SubmitArgs, find_active_order_for_intent,
  find_active_order_for_symbol, generate_client_order_id, record_submit_failure_and_maybe_halt,
  update_or_keep, record_placed, record_not_placed, place_and_record, resolve_race,
  create_and_place, submit,
}
use open_neotrader.RealOrder.Recover.{
  mark_absent, mark_recovered, confirmed_absent_escalation_threshold, forget_absent, forget_count,
  handle_confirmed_absent, adopt_broker_truth, recover_row, recover_inflight,
}

SameClient-mark_submitted : (r : PlaceResponse) (n : ℕ) → SameClient (mark_submitted r n)
SameClient-mark_submitted r n = record { same = λ x. refl }

SameClient-mark_submit_failed : (e : String) → SameClient (mark_submit_failed e)
SameClient-mark_submit_failed e = record { same = λ x. refl }

SameClient-mark_absent : (n : ℕ) → SameClient (mark_absent n)
SameClient-mark_absent n = record { same = λ x. refl }

SameClient-mark_recovered : (o : OrderStatus) (n : ℕ) → SameClient (mark_recovered o n)
SameClient-mark_recovered o n = record { same = λ x. refl }

ruleset same_client = (
  SameClient-mark_submitted, SameClient-mark_submit_failed, SameClient-mark_absent,
  SameClient-mark_recovered,
)

module _ {P : World → Type 0} (s : Stable P) where
  Keeps-forget_absent : (id : ℕ) → Keeps P (forget_absent id)
  unfolding forget_absent
  Keeps-forget_absent id = Keeps-change_absent_counts s (forget_count id)

  ruleset recovery_rules = (
    keeps_rules, same_client, Keeps-now, Keeps-read_db, Keeps-update_order,
    Keeps-get_order_by_client_id, Keeps-forget_absent, Keeps-change_absent_counts,
  )

  pub Keeps-find_active_order_for_intent : (i : ℕ) → Keeps P (find_active_order_for_intent i)
  unfolding find_active_order_for_intent
  Keeps-find_active_order_for_intent i = search recovery_rules

  pub Keeps-find_active_order_for_symbol :
      (y b : ℕ) (d : Side) → Keeps P (find_active_order_for_symbol y b d)
  unfolding find_active_order_for_symbol
  Keeps-find_active_order_for_symbol y b d = search recovery_rules

  pub Keeps-resolve_race : (args : SubmitArgs) (e : Fault) → Keeps P (resolve_race args e)
  unfolding resolve_race
  Keeps-resolve_race args unique_violation =
      search (recovery_rules, Keeps-find_active_order_for_intent) depth 14
  Keeps-resolve_race args _ = search recovery_rules

  pub Keeps-generate_client_order_id : (i : ℕ) → Keeps P (generate_client_order_id i)
  unfolding generate_client_order_id now
  Keeps-generate_client_order_id i = record { at = λ w h. (Keeps-now s).at w h }

  Keeps-handle_confirmed_absent : (row : RealOrder) → Keeps P (handle_confirmed_absent row)
  unfolding handle_confirmed_absent
  Keeps-handle_confirmed_absent row = Keeps-bind _ _ (Keeps-gets _) λ seen.
      Keeps-if (ltb (seen + 1) confirmed_absent_escalation_threshold) _ _ (search recovery_rules)
        (search recovery_rules depth 14)

  Keeps-adopt_broker_truth :
      (row : RealOrder) (o : OrderStatus) → Keeps P (adopt_broker_truth row o)
  unfolding adopt_broker_truth
  Keeps-adopt_broker_truth row o = search recovery_rules depth 14

  Keeps-recover_row : (row : RealOrder) → Keeps P (recover_row row)
  unfolding recover_row
  Keeps-recover_row row =
      search (recovery_rules, Keeps-handle_confirmed_absent, Keeps-adopt_broker_truth) depth 14

  pub Keeps-recover_inflight : Keeps P recover_inflight
  unfolding recover_inflight
  Keeps-recover_inflight = search (recovery_rules, Keeps-recover_row) depth 14

-- The kill-switch's writes are stood too.
pub record Haltable (P : World → Type 0) : Type 0 where
  pub at_flag : (w : World) → P w → P (set_kv halted_key "true" w)
  pub at_reason : (reason : String) (w : World) → P w → P (set_kv halt_reason_key reason w)

module _ {P : World → Type 0} (s : Stable P) (t : Haltable P) where
  write_flag : Keeps P (kv_write halted_key "true")
  unfolding kv_write
  write_flag = Keeps-bind _ _ (Keeps-db_call s) (λ _. Keeps-modify _ t.at_flag)

  write_reason : (reason : String) → Keeps P (kv_write halt_reason_key reason)
  unfolding kv_write
  write_reason reason = Keeps-bind _ _ (Keeps-db_call s) (λ _. Keeps-modify _ (t.at_reason reason))

  pub Keeps-halt_real_execution : (reason : String) → Keeps P (halt_real_execution reason)
  unfolding halt_real_execution
  Keeps-halt_real_execution reason = search (keeps_rules, write_flag, write_reason)

  Keeps-record_submit_failure : Keeps P record_submit_failure_and_maybe_halt
  unfolding record_submit_failure_and_maybe_halt
  Keeps-record_submit_failure =
      search (keeps_rules, Keeps-now, Keeps-change_failure_times, Keeps-halt_real_execution) depth
        14

  ruleset submit_rules = (
    keeps_rules, same_client, Keeps-now, Keeps-new_id, Keeps-read_db, Keeps-update_order,
    Keeps-create_order, Keeps-change_failure_times, Keeps-record_submit_failure,
  )

  pub Keeps-update_or_keep :
      (row : RealOrder) (f : RealOrder → RealOrder) → SameClient f → Keeps P (update_or_keep row f)
  unfolding update_or_keep
  Keeps-update_or_keep row f k = search submit_rules depth 14

  pub Keeps-record_placed : (row : RealOrder) (r : PlaceResponse) → Keeps P (record_placed row r)
  unfolding record_placed
  Keeps-record_placed row r = search (submit_rules, Keeps-update_or_keep) depth 14

  pub Keeps-record_not_placed : (row : RealOrder) (e : Fault) → Keeps P (record_not_placed row e)
  unfolding record_not_placed
  Keeps-record_not_placed row e = search (submit_rules, Keeps-update_or_keep) depth 14

  pub Keeps-submit_of :
      (args : SubmitArgs) → Keeps P (create_and_place args) → Keeps P (submit args)
  unfolding submit
  Keeps-submit_of args k =
      search (submit_rules, Keeps-find_active_order_for_intent, Keeps-find_active_order_for_symbol)
        depth 14

-- Every order's placement is stood too.
module _ {P : World → Type 0} (s : Stable P) (t : Haltable P)
    (at_place : (b : ℕ) (r : PlaceRequest) (w : World)
      → P w
      → P (record w { told = place b r ∷ w.told })) where
  Keeps-place_order : (b : ℕ) (r : PlaceRequest) → Keeps P (place_order b r)
  unfolding place_order now
  Keeps-place_order b r = record { at = λ w h. (Keeps-now s).at _ (at_place b r w h) }

  Keeps-place_and_record :
      (args : SubmitArgs) (row : RealOrder) → Keeps P (place_and_record args row)
  unfolding place_and_record
  Keeps-place_and_record args row =
      search (keeps_rules, Keeps-place_order, Keeps-record_placed, Keeps-record_not_placed) depth 14

  Keeps-create_and_place : (args : SubmitArgs) → Keeps P (create_and_place args)
  unfolding create_and_place
  Keeps-create_and_place args =
      search
        (submit_rules, Keeps-generate_client_order_id, Keeps-resolve_race, Keeps-place_and_record)
        depth 14

  pub Keeps-submit : (args : SubmitArgs) → Keeps P (submit args)
  Keeps-submit args = Keeps-submit_of s t args (Keeps-create_and_place args)
