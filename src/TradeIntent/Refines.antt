-- ===== src/TradeIntent/Refines.antt =====
-- What the deciding methods of trade-intent.service.ts return, against the state machine of an intent.
use open_neotrader.Base.{
  some_eq, ℕ, String, ◌≡◌, refl, sym, ◌∙◌, Option, some, find, is_yes_true, ◌==◌,
}
use open_neotrader.Number.{Number}
use open_neotrader.Exec.{◌>>=◌}
use open_neotrader.Exec.Leads.{Yields}
use open_neotrader.Exec.Returns.{
  Returns, returns_rules, Returns-bind, Yields-bind, Returns-if, Returns-on_result,
}
use open_neotrader.Execution.Account.{Account, FillResult}
use open_neotrader.Store.Rows.{
  IntentStatus, TradeAction, long, short, exit, hold, Mode, paper, real, TradeIntent, Side,
}
use open_neotrader.Store.World.{World, Action}
use open_neotrader.TradeIntent.Policy.{ExecutionPolicy}
use open_neotrader.TradeIntent.Real.{
  RealAccountState, submit_and_record, check_and_submit, execute_at_broker, execute_real,
}
use open_neotrader.TradeIntent.Process.{
  record_fill, fill_on_paper, run_paper_execution, open_real, open_on_paper, execute_in, route,
  find_pending, process_intent, reject,
}
use open_neotrader.TradeIntent.Decisions.{
  Transition, executes, refuses, skips, IsDecision, Returns-fail, Returns-side_and_qty,
  Returns-preconditions, Returns-resolve_mode, Returns-unless, Returns-decide,
  Returns-record_no_change, Returns-reject_by_gate, Returns-record_submission,
}
use open_neotrader.TradeIntent.Safety.{Gives-find_pending}

module _ (by : String) where
  Returns-submit_and_record :
      (id broker symbol : ℕ) (side : Side) (qty : Number)
      → Returns (IsDecision by) (submit_and_record id broker symbol by side qty)
  unfolding submit_and_record
  Returns-submit_and_record id broker symbol side qty = Returns-bind _ _ (λ r.
      Returns-on_result r _ _ (Returns-record_submission by id side qty)
        (λ _. Returns-fail by id _))

  ruleset submission_rules = (returns_rules, Returns-fail, Returns-submit_and_record)

  Returns-check_and_submit :
      (id broker symbol : ℕ) (a : TradeAction) (p : ExecutionPolicy) (price : Number)
      (sized : Side × Number)
      → Returns (IsDecision by) (check_and_submit id broker symbol a p price by sized)
  unfolding check_and_submit
  Returns-check_and_submit id broker symbol a p price (side, qty) = search submission_rules depth 12

  ruleset decision_rules = (
    submission_rules, Returns-record_no_change, Returns-reject_by_gate, Returns-unless,
    Returns-side_and_qty, Returns-check_and_submit,
  )

  Returns-execute_at_broker :
      (id symbol : ℕ) (a : TradeAction) (p : ExecutionPolicy) (state : Option RealAccountState)
      (n : Number) (broker : ℕ)
      → Returns (IsDecision by) (execute_at_broker id symbol a p state by n broker)
  unfolding execute_at_broker
  Returns-execute_at_broker id symbol exit p state n broker = search decision_rules depth 14
  Returns-execute_at_broker id symbol long p state n broker = search decision_rules depth 14
  Returns-execute_at_broker id symbol short p state n broker = search decision_rules depth 14
  Returns-execute_at_broker id symbol hold p state n broker = search decision_rules depth 14

  Returns-execute_real :
      (id symbol : ℕ) (a : TradeAction) (p : ExecutionPolicy) (state : Option RealAccountState)
      (n : Number)
      → Returns (IsDecision by) (execute_real id symbol a p state by n)
  unfolding execute_real
  Returns-execute_real id symbol a p state n =
      Returns-unless by _ _ (Returns-preconditions by id p a state)
        (Returns-execute_at_broker id symbol a p state n)

  Returns-record_fill :
      (id : ℕ) (a : TradeAction) (price : Number) (f : FillResult)
      → Returns (IsDecision by) (record_fill id a price by f)
  unfolding record_fill
  Returns-record_fill id a price f =
      Returns-if _ _ _ (Returns-decide by id _ (λ t d. (d, skips)))
        (Returns-decide by id _ (λ t d. (d, executes)))

  ruleset paper_rules = (returns_rules, Returns-fail, Returns-record_fill)

  Returns-run_paper_execution :
      (id symbol : ℕ) (a : TradeAction) (account : Account) (n : Number) (p : ExecutionPolicy)
      → Returns (IsDecision by) (run_paper_execution id symbol a account by n p)
  unfolding run_paper_execution fill_on_paper
  Returns-run_paper_execution id symbol a account n p = search paper_rules depth 14

  ruleset entry_rules = (
    returns_rules, Returns-fail, Returns-record_no_change, Returns-reject_by_gate,
    Returns-execute_real, Returns-run_paper_execution,
  )

  Returns-open_real :
      (id symbol : ℕ) (p : ExecutionPolicy) (n : Number) (a : TradeAction)
      (state : Option RealAccountState)
      → Returns (IsDecision by) (open_real id symbol by p n a state)
  unfolding open_real
  Returns-open_real id symbol p n a state = search entry_rules depth 14

  Returns-open_on_paper :
      (id symbol : ℕ) (p : ExecutionPolicy) (n : Number) (a : TradeAction) (account : Account)
      → Returns (IsDecision by) (open_on_paper id symbol by p n a account)
  unfolding open_on_paper
  Returns-open_on_paper id symbol p n a account = search entry_rules depth 14

  Returns-execute_in :
      (id symbol : ℕ) (p : ExecutionPolicy) (n : Number) (mode : Mode) (a : TradeAction)
      (account : Account)
      → Returns (IsDecision by) (execute_in id symbol by p n mode a account)
  unfolding execute_in
  Returns-execute_in id symbol p n mode hold account = Returns-record_no_change by id
  Returns-execute_in id symbol p n real exit account = search entry_rules depth 14
  Returns-execute_in id symbol p n real long account =
      Returns-bind _ _ (λ state. Returns-open_real id symbol p n long state)
  Returns-execute_in id symbol p n real short account =
      Returns-bind _ _ (λ state. Returns-open_real id symbol p n short state)
  Returns-execute_in id symbol p n paper exit account =
      Returns-run_paper_execution id symbol exit account n p
  Returns-execute_in id symbol p n paper long account =
      Returns-open_on_paper id symbol p n long account
  Returns-execute_in id symbol p n paper short account =
      Returns-open_on_paper id symbol p n short account

  Returns-route :
      (id symbol : ℕ) (p : ExecutionPolicy) (n : Number) (a : TradeAction)
      → Returns (IsDecision by) (route id symbol by p n a)
  unfolding route
  Returns-route id symbol p n a =
      Returns-unless by _ _ (Returns-resolve_mode by p id symbol a)
        (λ mode. Returns-bind _ _ (λ account. Returns-execute_in id symbol p n mode a account))

from_pending :
    {by : String} {s : IntentStatus} {run : Action TradeIntent}
    → s ≡ IntentStatus.pending
    → Returns (IsDecision by) run
    → Returns (λ row. (row.decided_by ≡ some by) × Transition s row.status) run
from_pending h known = rw h known

-- a decision starts with the pending intent that its first step finds
decision_of :
    (id : ℕ) (by : String) (w : World) (next : TradeIntent → Action TradeIntent) {t : TradeIntent}
    → find (λ i. i.id == id) w.db.intents ≡ some t
    → ((row : TradeIntent) → Returns (IsDecision by) (next row))
    → Yields
        (λ row. (row.decided_by ≡ some by) × Transition t.status row.status)
        ((find_pending id >>= next) w).0
unfolding ◌>>=◌
decision_of id by w next {t} found follows =
    Yields-bind (find_pending id w).0 next (find_pending id w).1
      ((Gives-find_pending id).value w ((refl, refl, refl), refl))
      (λ row pending.
        rw (some_eq (sym found ∙ pending.0)) (from_pending (is_yes_true _ pending.1) (follows row)))

-- The decisions refine the state machine of an intent: where `autoProcess`, `approve` or `reject` returns
-- on an intent of the table, the row that it returns names who decided, and its status is one that a
-- decision may lead to from the status that the intent had, which is `pending`. So nothing is decided
-- that was not pending, and what is returned is no longer pending.
pub decisions_refine :
    (by reason : String) (sizing : ExecutionPolicy → Number) (id : ℕ) (w : World) {t : TradeIntent}
    → find (λ i. i.id == id) w.db.intents ≡ some t
    → let decided =
        λ (row : TradeIntent). (row.decided_by ≡ some by) × Transition t.status row.status in
      Yields decided (process_intent by sizing id w).0 × Yields decided (reject id by reason w).0
unfolding process_intent reject
decisions_refine by reason sizing id w {t} found = (
  decision_of id by w _ found (λ row.
      Returns-bind _ _
        (λ policy. Returns-route by id row.symbol policy (sizing policy) row.action)),
  decision_of id by w _ found (λ row. Returns-decide by id _ (λ u d. (d, refuses))),
)
