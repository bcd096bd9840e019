-- ===== src/Tests/Entries.antt =====
-- The paper account's entries, exits and ceilings, with a concrete arithmetic on whole
-- multiples of the smallest double.
use Prim.Native.Nat.{◌/◌}
use open_neotrader.Base.{
  ℕ, ◌+◌, ◌-◌, ◌*◌, ◌≡◌, refl, true, false, none, some, List, [], ◌∷◌, ltb, if◌then◌else◌, some_of,
  inl,
}
use open_neotrader.Number.{
  ℤ, pos, negsuc, pos_part, neg_part, Number, nan, finite, num_of, zero_num,
}
use open_neotrader.Store.Rows.{exit, long, unpriced_positions}
use open_neotrader.Execution.Account.{
  Arithmetic, GovernedPosition, Account, RiskPolicy, FillPolicy, Market, is_of,
}
use open_neotrader.Execution.Gate.{
  evaluate_entry_gate, mark_to_market, mark_positions, sync_period_baselines, loss_refusal,
  check_period_loss_limit, limit_refusal, compute_drawdown_pct,
}
use open_neotrader.Execution.Entry.{evaluate_and_execute_entry}
use open_neotrader.Execution.Closing.{others, exit_closes}
use open_neotrader.Execution.Limits.{
  WithinLimits, WithinLosses, HasStarts, evaluate_entry_gate-WithinLosses,
  evaluate_entry_gate-WithinLimits, unpriced_entry_refused,
}

abbrev pub difference : ℕ → ℕ → ℤ
difference m n = if ltb m n then negsuc (n - m - 1) else pos (m - n)

abbrev add : Number → Number → Number
add (finite x) (finite y) = finite (difference (pos_part x + pos_part y) (neg_part x + neg_part y))
add _ _ = nan

abbrev sub : Number → Number → Number
sub (finite x) (finite y) = finite (difference (pos_part x + neg_part y) (neg_part x + pos_part y))
sub _ _ = nan

abbrev mul : Number → Number → Number
mul (finite (pos x)) (finite (pos y)) = finite (pos (x * y))
mul _ _ = nan

abbrev div : Number → Number → Number
div (finite (pos x)) (finite (pos y)) = finite (pos (x / y))
div _ _ = nan

abbrev pub whole : Arithmetic
whole = record { add = add; sub = sub; mul = mul; div = div; floor = λ x. x; round = λ x. x }

abbrev units : ℕ → Number
units n = finite (pos n)

abbrev a_short : GovernedPosition
a_short = record { symbol = 5; quantity = finite (negsuc 1); avg_price = units 10 }

abbrev a_long : GovernedPosition
a_long = record { symbol = 6; quantity = units 3; avg_price = units 4 }

abbrev account_of : List GovernedPosition → Account
account_of positions = record {
  equity = units 100;
  cash = units 50;
  positions = positions;
  hwm = none;
  day_key = none;
  day_start_equity = none;
  week_key = none;
  week_start_equity = none;
}

abbrev risk : RiskPolicy
risk = record {
  max_position_pct = units 1;
  max_open_positions = num_of 5;
  max_drawdown_halt_pct = units 20;
  max_short_notional_pct = units 1;
  loss_circuit_breaker_enabled = false;
  max_daily_loss_pct = units 1;
  max_weekly_loss_pct = units 1;
}

abbrev sizing : FillPolicy
sizing = record {
  sizing_pct = units 1;
  max_position_pct = units 1;
  max_short_notional_pct = units 1;
  slippage_pct = none;
  commission_pct = none;
}

-- no quote for the mark to market, and a quote of 4 for the fill
abbrev market : Market
market = record {
  mark_quote = λ _. none;
  fill_quote = λ _. some (units 4);
  arrival = λ ps. ps;
  today = 1;
  this_week = 1;
}

exit_closes_example :
    let result =
      evaluate_and_execute_entry whole market exit 6
        (account_of (a_short ∷ a_long ∷ []))
        risk
        sizing in
    (result.refusal ≡ none)
    × (result.quantity ≡ units 3)
    × (some_of (is_of 6) result.new_state.positions ≡ false)
    × (others 6 result.new_state.positions ≡ a_short ∷ [])
exit_closes_example =
    exit_closes whole market 6 (account_of (a_short ∷ a_long ∷ [])) risk sizing (refl, (refl, tt))
      refl refl refl

evaluate_entry_gate-WithinLimits_example :
    WithinLimits whole risk (evaluate_entry_gate whole market (account_of []) risk).state
unfolding evaluate_entry_gate mark_to_market mark_positions sync_period_baselines loss_refusal
    limit_refusal compute_drawdown_pct num_of
evaluate_entry_gate-WithinLimits_example =
    evaluate_entry_gate-WithinLimits whole market (account_of []) risk refl

abbrev guarded : RiskPolicy
guarded = record risk { loss_circuit_breaker_enabled = true }

evaluate_entry_gate-WithinLosses_example :
    let after = (evaluate_entry_gate whole market (account_of []) guarded).state in
    WithinLosses whole guarded after × HasStarts market (account_of []) after
unfolding evaluate_entry_gate mark_to_market mark_positions sync_period_baselines loss_refusal
    limit_refusal compute_drawdown_pct num_of check_period_loss_limit
evaluate_entry_gate-WithinLosses_example =
    evaluate_entry_gate-WithinLosses whole market (account_of []) guarded refl refl

unpriced_entry_refused_example :
    let state = account_of (a_short ∷ a_long ∷ []) in
    let result = evaluate_and_execute_entry whole market long 7 state risk sizing in
    (result.refusal ≡ some unpriced_positions)
    × (result.quantity ≡ zero_num)
    × (result.new_state ≡ state)
unpriced_entry_refused_example =
    unpriced_entry_refused whole market long 7 (account_of (a_short ∷ a_long ∷ [])) risk sizing
      a_long (a_short ∷ []) [] (inl refl) refl tt
