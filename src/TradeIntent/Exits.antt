-- ===== src/TradeIntent/Exits.antt =====
-- Exits in trade-intent.service.ts: a position that the broker holds can be closed with real money
-- whatever the policy says, and an exit is never guessed.
use open_neotrader.Base.{
  if◌then◌else◌, ℕ, suc, String, ◌≡◌, refl, ◌∙◌, Bool, true, false, Option, none, some, [], ◌∷◌,
  ◌++◌, All, Option-cases, inl, inr, find, is_yes_holds, ◌==◌, arith, select, length,
}
use open_neotrader.Number.{Number, zero_num, num_abs, num_lt, num_le}
use open_neotrader.Exec.{ok, pure, ◌>>=◌}
use open_neotrader.Exec.Keeps.{Keeps-on_result}
use open_neotrader.Common.Kv.{kv_get}
use open_neotrader.Store.Rows.{
  IntentStatus, exit, TradeIntent, Side, sell, Position, Portfolio, NavSnapshot, no_exit_routing,
}
use open_neotrader.Store.Index.{index_holds}
use open_neotrader.Store.World.{Action, World, placed_ids}
use open_neotrader.Store.Calls.{
  now, db_call, read_db, kv_read, get_portfolio, get_quote, change_intent,
}
use open_neotrader.Store.Calls.Footprint.{OutsideIs-Stable}
use open_neotrader.RealOrder.Submit.{SubmitArgs, submit, is_for_intent, is_for_symbol}
use open_neotrader.RealOrder.Guards.{DatabaseWorks, next_row, submit_reaches_broker}
use open_neotrader.TradeIntent.Policy.{ExecutionPolicy, read_raw_policy, read_execution_policy}
use open_neotrader.TradeIntent.Mode.{
  elapsed, decide, fail, stop_failed, position_of, resolve_mode, resolve_exit_routing,
}
use open_neotrader.TradeIntent.Real.{
  max_age_of, account_of, RealAccountState, read_real_state_max_age_ms, account_if_fresh,
  get_real_account_state, check_walk_forward, check_account, check_broker,
  check_execute_real_preconditions, resolve_real_exit_qty, resolve_real_side_and_qty, args_of,
  submit_and_record, check_and_submit, unless_stopped, execute_at_broker, execute_real,
}
use open_neotrader.TradeIntent.Process.{
  load_paper, execute_in, route, find_pending, process_intent, IntentStatus-discrete,
}
use open_neotrader.TradeIntent.Keeps.{Keeps-fail}
use open_neotrader.TradeIntent.Placing.{Keeps-record_submission}
use open_neotrader.TradeIntent.Safety.{raw_of, stored_policy}

-- the same world a number of calls later
abbrev pub at_call : World → ℕ → World
at_call w n = record w { calls_made = n }

-- the arguments of the order that closes a position
abbrev pub closing_args : ℕ → ℕ → ℕ → Position → SubmitArgs
closing_args id b symbol held = args_of id b symbol sell (num_abs held.qty)

not_le : (q : Number) → num_lt zero_num q ≡ true → num_le q zero_num ≡ false
not_le q h = ground (arith, h)

-- the number of the call after the twelve readings of the policy
abbrev pub twelve_later : ℕ → ℕ
twelve_later n = suc (suc (suc (suc (suc (suc (suc (suc (suc (suc (suc (suc n)))))))))))

module _ (w : World) (works : DatabaseWorks w) where
  read_next :
      {T : Type 0} (k : String) (next : Option String → Action T) (n : ℕ)
      → (kv_read k >>= next) (at_call w n) ≡ next (kv_get k w.db.kv) (at_call w (suc n))
  unfolding kv_read db_call ◌>>=◌
  read_next k next n = rw (works n) refl

  raw_read :
      (n : ℕ) → read_raw_policy (at_call w n) ≡ (ok (raw_of w.db.kv), at_call w (twelve_later n))
  unfolding read_raw_policy pure
  raw_read n =
      read_next _ _ _
      ∙ read_next _ _ _
      ∙ read_next _ _ _
      ∙ read_next _ _ _
      ∙ read_next _ _ _
      ∙ read_next _ _ _
      ∙ read_next _ _ _
      ∙ read_next _ _ _
      ∙ read_next _ _ _
      ∙ read_next _ _ _
      ∙ read_next _ _ _
      ∙ read_next _ _ _

  pub policy_read :
      (n : ℕ)
      → read_execution_policy (at_call w n)
        ≡ (ok (stored_policy w.external w.db.kv), at_call w (twelve_later n))
  unfolding read_execution_policy ◌>>=◌
  policy_read n = rw (raw_read n) refl

  -- the count of the positions, unless the snapshot is too old
  counted_unless :
      (stale : Bool) (b : ℕ) (s : NavSnapshot) (n : ℕ)
      → (state : Option RealAccountState) × (k : ℕ) × ((if stale then pure none else (do
        count ← read_db (λ db. length (select (λ p. p.broker_plugin_id == b) db.positions))
        pure (some (account_of s count))))
            (at_call w n)
          ≡ (ok state, at_call w k))
  unfolding read_db db_call ◌>>=◌
  counted_unless true b s n = (none, n, refl)
  counted_unless false b s n = (
    some (account_of s (length (select (λ p. p.broker_plugin_id == b) w.db.positions))),
    suc n,
    rw (works n) refl,
  )

  state_read :
      (b n : ℕ)
      → (state : Option RealAccountState) × (k : ℕ) × (get_real_account_state b (at_call w n)
          ≡ (ok state, at_call w k))
  unfolding get_real_account_state account_if_fresh read_real_state_max_age_ms read_db kv_read
      db_call now ◌>>=◌
  state_read b n = elim (Option-cases (find (λ s. s.broker_plugin_id == b) w.db.snapshots)) [
    | inl none_yet ↦ (none, suc n, rw (works n, none_yet) refl)
    | inr (s, latest) ↦
        let max_age =
          max_age_of w.external.readers (kv_get "execution.real_state_max_age_ms" w.db.kv) in
        let stale = num_lt max_age (elapsed (w.external.now (suc n)) s.ts) in
        let read = counted_unless stale b s (suc (suc (suc n))) in
        (read.0, read.1, rw (works n, latest, works (suc (suc n))) read.2)
  ]

  pending_found :
      (id : ℕ) {t : TradeIntent}
      → find (λ i. i.id == id) w.db.intents ≡ some t
      → t.status ≡ IntentStatus.pending
      → find_pending id w ≡ (ok t, at_call w (suc w.calls_made))
  unfolding find_pending read_db db_call ◌>>=◌
  pending_found id {t} found waits =
      rw (works, found, is_yes_holds (IntentStatus-discrete t.status IntentStatus.pending) waits)
        refl

  module _ (id b : ℕ) (by : String) (policy : ExecutionPolicy) (symbol : ℕ) {p : Portfolio}
      {held : Position} (set : policy.broker_plugin_id ≡ some b)
      (reported : (n : ℕ) → w.external.portfolio n b ≡ some p)
      (holds : position_of symbol p.positions ≡ some held)
      (not_empty : num_lt zero_num (num_abs held.qty) ≡ true) where
    submitted :
        (state : Option RealAccountState) (sizing_pct : Number) (n : ℕ)
        → execute_real id symbol exit policy state by sizing_pct (at_call w n)
          ≡ submit_and_record id b symbol by sell (num_abs held.qty) (at_call w (suc (suc n)))
    unfolding execute_real check_execute_real_preconditions check_broker check_account
        check_walk_forward execute_at_broker unless_stopped resolve_real_side_and_qty
        resolve_real_exit_qty check_and_submit get_portfolio get_quote ◌>>=◌
    submitted state sizing_pct n =
        rw (set, reported, holds, not_le (num_abs held.qty) not_empty)
          (rw (not_le (num_abs held.qty) not_empty) refl)

    -- the exit, from the moment that the policy is known
    routed_to_submit :
        (sizing_pct : Number) (n : ℕ)
        → (k : ℕ) × (route id symbol by policy sizing_pct exit (at_call w n)
            ≡ submit_and_record id b symbol by sell (num_abs held.qty) (at_call w k))
    unfolding route resolve_mode resolve_exit_routing get_portfolio unless_stopped load_paper
        read_db db_call execute_in ◌>>=◌
    routed_to_submit sizing_pct n =
        let read = state_read b (suc (suc n)) in
        (
          suc (suc read.1),
          rw (set, reported, holds, not_empty, works (suc n), read.2)
              (rw set at submitted read.0 sizing_pct read.1),
        )

recorded-placed_ids :
    (id b symbol : ℕ) (by : String) (side : Side) (qty : Number) (w : World)
    → placed_ids (submit_and_record id b symbol by side qty w).1.told
      ≡ placed_ids (submit (args_of id b symbol side qty) w).1.told
unfolding submit_and_record ◌>>=◌
recorded-placed_ids id b symbol by side qty w =
    let after = (submit (args_of id b symbol side qty) w).1 in
    let s = OutsideIs-Stable after.external (placed_ids after.told) in
    ((Keeps-on_result (submit (args_of id b symbol side qty) w).0 _ _
        (Keeps-record_submission s id by side qty) (λ _. Keeps-fail s id by _)).at
      after (refl, refl)).1

-- A position that the broker holds can be closed, whatever else is configured: where the database
-- works, the intent is a pending `exit`, a broker is configured and always reports a position of the
-- symbol that is not empty, no open order is for the intent nor sells the symbol at that broker, and
-- the order's row fits the unique indexes, the processing asks the broker to place an order. The
-- kill-switch, `execution.real`, the walk-forward gate, the real account's state, the notional ceiling
-- and the quote play no part.
pub exit_reaches_broker :
    (by : String) (sizing : ExecutionPolicy → Number) (id : ℕ) (w : World) {t : TradeIntent} {b : ℕ}
    {p : Portfolio} {held : Position}
    → DatabaseWorks w
    → find (λ i. i.id == id) w.db.intents ≡ some t
    → t.status ≡ IntentStatus.pending
    → t.action ≡ exit
    → (stored_policy w.external w.db.kv).broker_plugin_id ≡ some b
    → ((n : ℕ) → w.external.portfolio n b ≡ some p)
    → position_of t.symbol p.positions ≡ some held
    → num_lt zero_num (num_abs held.qty) ≡ true
    → All (λ r. is_for_intent id r ≡ false) w.db.orders
    → All (λ r. is_for_symbol t.symbol b sell r ≡ false) w.db.orders
    → ((n : ℕ)
        → index_holds (w.db.orders ++ next_row (closing_args id b t.symbol held) (at_call w n) ∷ [])
          ≡ true)
    → (c : ℕ) × (placed_ids (process_intent by sizing id w).1.told ≡ c ∷ placed_ids w.told)
unfolding process_intent ◌>>=◌
exit_reaches_broker by sizing id w {t} {b} {p} {held} works found waits closes set reported holds
      not_empty no_intent no_symbol fits =
    let policy = stored_policy w.external w.db.kv in
    let n = suc w.calls_made in
    let routed =
      routed_to_submit w works id b by policy t.symbol set reported holds not_empty (sizing policy)
        (twelve_later n) in
    let args = closing_args id b t.symbol held in
    let last = at_call w routed.0 in
    (
      (next_row args last).client_order_id,
      rw (pending_found w works id found waits, policy_read w works n, closes, routed.1)
          (recorded-placed_ids id b t.symbol by sell (num_abs held.qty) last
            ∙ submit_reaches_broker args last works no_intent no_symbol (fits routed.0)),
    )

-- An exit is never guessed: where the database works, a broker is configured and cannot say what it
-- holds, a pending `exit` ends as failed, the broker is told nothing, and the paper account stays as it
-- is.
pub exit_unknown_position :
    (by : String) (sizing : ExecutionPolicy → Number) (id : ℕ) (w : World) {t : TradeIntent} {b : ℕ}
    → DatabaseWorks w
    → find (λ i. i.id == id) w.db.intents ≡ some t
    → t.status ≡ IntentStatus.pending
    → t.action ≡ exit
    → (stored_policy w.external w.db.kv).broker_plugin_id ≡ some b
    → ((n : ℕ) → w.external.portfolio n b ≡ none)
    → let after = process_intent by sizing id w in
      (after.1.told ≡ w.told)
      × (after.1.db.paper ≡ w.db.paper)
      × ((time : ℕ) × (after.0
            ≡ ok (record t {
              status = IntentStatus.failed;
              outcome = some no_exit_routing;
              decided_at = some time;
              decided_by = some by;
            })))
unfolding process_intent route resolve_mode resolve_exit_routing get_portfolio stop_failed fail
    decide now change_intent db_call unless_stopped ◌>>=◌
exit_unknown_position by sizing id w {t} {b} works found waits closes set silent =
    let n = suc w.calls_made in
    let m = twelve_later n in
    rw
      (
        pending_found w works id found waits,
        policy_read w works n,
        closes,
        set,
        silent m,
        works (suc (suc m)),
        found,
      )
      (refl, refl, (w.external.now (suc m), rw closes refl))
