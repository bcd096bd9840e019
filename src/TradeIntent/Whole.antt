-- ===== src/TradeIntent/Whole.antt =====
-- What the methods of trade-intent.service.ts keep as a whole, where `submit` of the order service
-- keeps it.
use text.Mathlib.Text.{◌==◌ as str_eq}
use open_neotrader.Base.{◌≡◌, refl, false, ℕ, String, Option}
use open_neotrader.Number.{Number}
use open_neotrader.Exec.Keeps.{
  Keeps, keeps_rules, Keeps-bind, Keeps-gets, Keeps-pure, Keeps-on_option, Keeps-modify, Keeps-skip,
}
use open_neotrader.Exec.Leads.{Leads-Keeps}
use open_neotrader.Common.Halt.{halted_key, is_real_execution_halted}
use open_neotrader.Store.Rows.{TradeAction, exit, hold, short, long, TradeIntent, Side}
use open_neotrader.Store.World.{World}
use open_neotrader.Store.Calls.{set_kv, kv_write}
use open_neotrader.Store.Calls.Footprint.{
  Stable, Keeps-now, Keeps-read_db, Keeps-kv_read, Keeps-get_portfolio, Keeps-get_quote,
  Keeps-db_call, Keeps-new_id, Keeps-create_intent,
}
use open_neotrader.RealOrder.Submit.{SubmitArgs, submit}
use open_neotrader.TradeIntent.Policy.{ExecutionPolicy, PolicyPatch, write_if, set_policy}
use open_neotrader.TradeIntent.Mode.{Resolved, stopped, goes}
use open_neotrader.TradeIntent.Real.{
  RealAccountState, check_walk_forward, check_account, check_broker,
  check_execute_real_preconditions, resolve_real_exit_qty, size_entry, resolve_real_side_and_qty,
  submit_and_record, check_and_submit, unless_stopped, execute_at_broker, execute_real,
}
use open_neotrader.TradeIntent.Process.{process_intent, auto_process}
use open_neotrader.TradeIntent.Record.{
  IntentDto, record_duplicate, record_new, prior_in_cycle, record_valid, record_intent,
}
use open_neotrader.TradeIntent.Keeps.{
  Keeps-decide, Keeps-fail, Keeps-stop_failed, Keeps-read_execution_policy,
  Keeps-check_walk_forward_gate, Keeps-record_no_change, Keeps-find_pending,
}
use open_neotrader.TradeIntent.Placing.{Keeps-record_submission}
use open_neotrader.TradeIntent.Routing.{Leads-route}

module _ {P : World → Type 0} (s : Stable P) where
  ruleset whole_rules = (
    keeps_rules, Keeps-now, Keeps-new_id, Keeps-read_db, Keeps-kv_read, Keeps-get_portfolio,
    Keeps-get_quote, Keeps-create_intent, Keeps-decide, Keeps-fail, Keeps-stop_failed,
    Keeps-read_execution_policy, Keeps-check_walk_forward_gate, Keeps-record_no_change,
    Keeps-find_pending, Keeps-record_submission,
  )

  Keeps-preconditions :
      (id : ℕ) (p : ExecutionPolicy) (a : TradeAction) (state : Option RealAccountState)
      (by : String)
      → Keeps P (check_execute_real_preconditions id p a state by)
  unfolding check_execute_real_preconditions check_broker check_account check_walk_forward
      is_real_execution_halted
  Keeps-preconditions id p a state by = search whole_rules depth 24

  Keeps-side_and_qty :
      (id symbol : ℕ) (a : TradeAction) (p : ExecutionPolicy) (b : ℕ)
      (state : Option RealAccountState) (price n : Number) (by : String)
      → Keeps P (resolve_real_side_and_qty id symbol a p b state price n by)
  unfolding resolve_real_side_and_qty resolve_real_exit_qty size_entry
  Keeps-side_and_qty id symbol exit p b state price n by = search whole_rules depth 14
  Keeps-side_and_qty id symbol long p b state price n by = search whole_rules depth 14
  Keeps-side_and_qty id symbol short p b state price n by = search whole_rules depth 14
  Keeps-side_and_qty id symbol hold p b state price n by = search whole_rules depth 14

  Keeps-prior_in_cycle : (d : IntentDto) (a : TradeAction) → Keeps P (prior_in_cycle d a)
  unfolding prior_in_cycle
  Keeps-prior_in_cycle d a = search whole_rules depth 14

  Keeps-record_duplicate :
      (d : IntentDto) (a : TradeAction) (t : TradeIntent) → Keeps P (record_duplicate d a t)
  unfolding record_duplicate
  Keeps-record_duplicate d a t = search whole_rules depth 14

  module _ (submits : (args : SubmitArgs) → Keeps P (submit args)) where
    Keeps-submit_and_record :
        (id b symbol : ℕ) (by : String) (side : Side) (qty : Number)
        → Keeps P (submit_and_record id b symbol by side qty)
    unfolding submit_and_record
    Keeps-submit_and_record id b symbol by side qty = search whole_rules depth 14

    Keeps-check_and_submit :
        (id b symbol : ℕ) (a : TradeAction) (p : ExecutionPolicy) (price : Number) (by : String)
        (sized : Side × Number)
        → Keeps P (check_and_submit id b symbol a p price by sized)
    unfolding check_and_submit
    Keeps-check_and_submit id b symbol a p price by (side, qty) =
        search (whole_rules, Keeps-submit_and_record) depth 14

    Keeps-unless_stopped :
        {A : Type 0} (resolved : Resolved A)
        (next : A → open_neotrader.Store.World.Action TradeIntent)
        → ((v : A) → Keeps P (next v))
        → Keeps P (unless_stopped resolved next)
    unfolding unless_stopped
    Keeps-unless_stopped (stopped t) next k = Keeps-pure t
    Keeps-unless_stopped (goes v) next k = k v

    Keeps-execute_at_broker :
        (id symbol : ℕ) (a : TradeAction) (p : ExecutionPolicy) (state : Option RealAccountState)
        (by : String) (n : Number) (b : ℕ)
        → Keeps P (execute_at_broker id symbol a p state by n b)
    unfolding execute_at_broker
    Keeps-execute_at_broker id symbol hold p state by n b = search whole_rules depth 14
    Keeps-execute_at_broker id symbol long p state by n b =
        search (whole_rules, Keeps-side_and_qty, Keeps-unless_stopped, Keeps-check_and_submit) depth
          14
    Keeps-execute_at_broker id symbol short p state by n b =
        search (whole_rules, Keeps-side_and_qty, Keeps-unless_stopped, Keeps-check_and_submit) depth
          14
    Keeps-execute_at_broker id symbol exit p state by n b =
        search (whole_rules, Keeps-side_and_qty, Keeps-unless_stopped, Keeps-check_and_submit) depth
          14

    Keeps-execute_real :
        (id symbol : ℕ) (a : TradeAction) (p : ExecutionPolicy) (state : Option RealAccountState)
        (by : String) (n : Number)
        → Keeps P (execute_real id symbol a p state by n)
    unfolding execute_real
    Keeps-execute_real id symbol a p state by n =
        search (keeps_rules, Keeps-preconditions, Keeps-unless_stopped, Keeps-execute_at_broker)
          depth 14

    pub Keeps-process_intent :
        (by : String) (sizing : ExecutionPolicy → Number) (id : ℕ)
        → Keeps P (process_intent by sizing id)
    unfolding process_intent
    Keeps-process_intent by sizing id = Keeps-bind _ _ (Keeps-find_pending s id) (λ t.
        Keeps-bind _ _ (Keeps-read_execution_policy s) (λ policy. record {
          at =
              (Leads-route s (λ w h. h) id t.symbol by policy (sizing policy) t.action
                (λ state.
                  Leads-Keeps _ (λ w h. h)
                    (Keeps-execute_real id t.symbol t.action policy state by (sizing policy)))).at;
        }))

    Keeps-record_new : (d : IntentDto) (a : TradeAction) → Keeps P (record_new d a)
    unfolding record_new auto_process
    Keeps-record_new d a = search (whole_rules, Keeps-process_intent) depth 14

    pub Keeps-record_intent : (d : IntentDto) → Keeps P (record_intent d)
    unfolding record_intent record_valid
    Keeps-record_intent d =
        search (whole_rules, Keeps-prior_in_cycle, Keeps-record_duplicate, Keeps-record_new) depth
          14

-- A write of a key other than the kill-switch's is stood.
pub record Configurable (P : World → Type 0) : Type 0 where
  pub at_setting : (k v : String) (w : World) → str_eq k halted_key ≡ false → P w → P (set_kv k v w)

module _ {P : World → Type 0} (s : Stable P) (c : Configurable P) where
  Keeps-write_if :
      {A : Type 0} (k : String) (show : A → String) (value : Option A)
      → str_eq k halted_key ≡ false
      → Keeps P (write_if k show value)
  unfolding write_if kv_write
  Keeps-write_if k show value other =
      Keeps-on_option value _ _
        (λ a.
          Keeps-bind _ _ (Keeps-db_call s)
            (λ _. Keeps-modify _ (λ w h. c.at_setting k (show a) w other h)))
        Keeps-skip

  pub Keeps-set_policy : (patch : PolicyPatch) → Keeps P (set_policy patch)
  unfolding set_policy
  Keeps-set_policy patch = Keeps-bind _ _ (Keeps-gets _) (λ r.
      Keeps-bind _ _ (Keeps-write_if _ _ _ refl) (λ _.
        Keeps-bind _ _ (Keeps-write_if _ _ _ refl) (λ _.
          Keeps-bind _ _ (Keeps-write_if _ _ _ refl) (λ _.
            Keeps-bind _ _ (Keeps-write_if _ _ _ refl) (λ _.
              Keeps-bind _ _ (Keeps-write_if _ _ _ refl) (λ _.
                Keeps-bind _ _ (Keeps-write_if _ _ _ refl) (λ _.
                  Keeps-bind _ _ (Keeps-write_if _ _ _ refl) (λ _.
                    Keeps-bind _ _ (Keeps-write_if _ _ _ refl) (λ _.
                      Keeps-bind _ _ (Keeps-write_if _ _ _ refl) (λ _.
                        Keeps-bind _ _ (Keeps-write_if _ _ _ refl) (λ _.
                          Keeps-bind _ _ (Keeps-write_if _ _ _ refl) (λ _.
                            Keeps-bind _ _ (Keeps-write_if _ _ _ refl)
                              (λ _. Keeps-read_execution_policy s)))))))))))))
