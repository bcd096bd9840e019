-- ===== src/Execution/Limits.antt =====
-- The limits that the entry gate enforces, and the ceilings on the size of an entry.
use open_neotrader.Base.{
  ℕ, ◌≡◌, refl, Bool, true, false, Option, none, some, List, [], ◌∷◌, arith, length, Bool-cases,
  Option-cases, inl, inr, ◌⊎◌, ap, ==_iff, ◌++◌,
}
use open_neotrader.Number.{
  Number, nan, neg_inf, pos_inf, finite, is_finite, num_lt, num_le, num_of, zero_num, num_lt_irrefl,
}
use open_neotrader.Store.Rows.{TradeAction, long, short}
use open_neotrader.Execution.Account.{
  Arithmetic, GovernedPosition, Account, RiskPolicy, FillPolicy, Market,
}
use open_neotrader.Store.Rows.{Refusal, unpriced_positions}
use open_neotrader.Execution.Gate.{
  Marked, all_quoted, compute_drawdown_pct, mark_positions, mark_to_market, limit_refusal,
  after_losses, refreshed, check_period_loss_limit, loss_refusal, sync_period_baselines,
  evaluate_entry_gate, is_key, is_quoted, is_price,
}
use open_neotrader.Execution.Fill.{clamp_to_ceiling}
use open_neotrader.Execution.Entry.{evaluate_and_execute_entry, fill_if_passed}

-- The state that a passed gate hands on: within the drawdown and below the ceiling on positions.
abbrev pub WithinLimits : Arithmetic → RiskPolicy → Account → Type 0
WithinLimits a policy state =
    (num_le policy.max_drawdown_halt_pct (compute_drawdown_pct a state) ≡ false)
    × (num_le policy.max_open_positions (num_of (length state.positions)) ≡ false)

limit_refusal-none :
    (a : Arithmetic) (policy : RiskPolicy) (state : Account)
    → limit_refusal a policy state ≡ none
    → WithinLimits a policy state
unfolding limit_refusal
limit_refusal-none a policy state h = ground arith

after_losses-WithinLimits :
    (a : Arithmetic) (loss : Option Refusal) (policy : RiskPolicy) (synced : Account) (mtm : Marked)
    (changed : Bool)
    → (after_losses a loss policy synced mtm changed).refusal ≡ none
    → WithinLimits a policy (after_losses a loss policy synced mtm changed).state
after_losses-WithinLimits a none policy synced mtm changed h = limit_refusal-none a policy _ h
after_losses-WithinLimits a (some r) policy synced mtm changed h = cc

-- An entry that the gate lets through respects the limits: the state that it hands on, marked to
-- market, has a drawdown that does not reach the policy's halt and fewer positions than its ceiling.
pub evaluate_entry_gate-WithinLimits :
    (a : Arithmetic) (m : Market) (state : Account) (policy : RiskPolicy)
    → (evaluate_entry_gate a m state policy).refusal ≡ none
    → WithinLimits a policy (evaluate_entry_gate a m state policy).state
unfolding evaluate_entry_gate
evaluate_entry_gate-WithinLimits a m state policy h =
    elim (Bool-cases (mark_to_market a m state).is_ok) [
      | inl e ↦ rw e (after_losses-WithinLimits a _ policy _ _ _ (rw e at h))
      | inr e ↦ cc
    ]

mark_positions-unpriced :
    (a : Arithmetic) (m : Market) (state : Account) (ps : List GovernedPosition)
    → all_quoted m ps ≡ false
    → (mark_positions a m state ps).is_ok ≡ false
unfolding mark_positions
mark_positions-unpriced a m state [] h = cc
mark_positions-unpriced a m state (p ∷ ps) h = rw h refl

-- no quote, or one that is not finite or not positive
abbrev pub HasNoPrice : Option Number → Type 0
HasNoPrice none = Unit
HasNoPrice (some q) = (is_finite q ≡ false) ⊎ (num_lt zero_num q ≡ false)

is_price-none : (q : Number) → HasNoPrice (some q) → is_price q ≡ false
is_price-none nan h = refl
is_price-none neg_inf h = refl
is_price-none pos_inf h = refl
is_price-none (finite x) (inl e) = ground (arith, e)
is_price-none (finite x) (inr e) = rw e refl

is_quoted-none : (o : Option Number) → HasNoPrice o → is_quoted o ≡ false
is_quoted-none none h = refl
is_quoted-none (some q) h = is_price-none q h

all_quoted-none :
    (m : Market) (p : GovernedPosition) (before after : List GovernedPosition)
    → HasNoPrice (m.mark_quote p.symbol)
    → all_quoted m (before ++ p ∷ after) ≡ false
all_quoted-none m p [] after h = rw (is_quoted-none (m.mark_quote p.symbol) h) refl
all_quoted-none m p (q ∷ before) after h = ground (arith, all_quoted-none m p before after h)

-- An entry fails closed: where one of the open positions has no quote, or a quote that is not finite or
-- not positive, a `long` and a `short` are refused for that reason, nothing is traded, and the account
-- stays as it was, whatever the policies say.
pub unpriced_entry_refused :
    (a : Arithmetic) (m : Market) (action : TradeAction) (symbol : ℕ) (state : Account)
    (risk : RiskPolicy) (policy : FillPolicy) (p : GovernedPosition)
    (before after : List GovernedPosition)
    → (action ≡ long) ⊎ (action ≡ short)
    → state.positions ≡ before ++ p ∷ after
    → HasNoPrice (m.mark_quote p.symbol)
    → let result = evaluate_and_execute_entry a m action symbol state risk policy in
      (result.refusal ≡ some unpriced_positions)
      × (result.quantity ≡ zero_num)
      × (result.new_state ≡ state)
unfolding evaluate_and_execute_entry evaluate_entry_gate fill_if_passed mark_to_market
unpriced_entry_refused a m action symbol state risk policy p before after entry held missing =
    let unquoted : all_quoted m state.positions ≡ false =
      rw held (all_quoted-none m p before after missing) in
    let marks = mark_positions-unpriced a m state state.positions unquoted in
    elim entry [
      | inl e ↦ rw (e, marks) (refl, refl, refl)
      | inr e ↦ rw (e, marks) (refl, refl, refl)
    ]

-- A ceiling holds: a quantity that is clamped to a ceiling either was not positive to begin with, and
-- is handed back, or does not exceed the ceiling.
pub clamp_to_ceiling-upper :
    (a : Arithmetic) (qty equity price max_pct : Number)
    → let clamped = clamp_to_ceiling a qty equity price max_pct in
      ((num_le qty zero_num ≡ true) × (clamped ≡ qty))
      ⊎ (num_lt (a.floor (a.div (a.mul equity max_pct) price)) clamped ≡ false)
unfolding clamp_to_ceiling
clamp_to_ceiling-upper a qty equity price max_pct =
    let max_qty = a.floor (a.div (a.mul equity max_pct) price) in
    elim (Bool-cases (num_le qty zero_num)) [
      | inl e ↦ inl (e, rw e refl)
      | inr e ↦ elim (Bool-cases (num_lt max_qty qty)) [
        | inl d ↦ inr (rw (e, d) (num_lt_irrefl max_qty))
        | inr d ↦ inr (rw (e, d) d)
      ]
    ]

-- A loss, as a share of what there was at the start, is below a limit. A start that is missing or not
-- positive sets none.
abbrev pub LossBelow : Arithmetic → Option Number → Number → Number → Type 0
LossBelow a none equity limit = Unit
LossBelow a (some start) equity limit =
    (num_le start zero_num ≡ true) ⊎ (num_le limit (a.div (a.sub start equity) start) ≡ false)

-- The account's losses since the start of the day and of the week are below the policy's limits.
abbrev pub WithinLosses : Arithmetic → RiskPolicy → Account → Type 0
WithinLosses a policy state =
    LossBelow a state.day_start_equity state.equity policy.max_daily_loss_pct
    × LossBelow a state.week_start_equity state.equity policy.max_weekly_loss_pct

check_period_loss_limit-LossBelow :
    (a : Arithmetic) (start : Option Number) (equity limit : Number)
    → check_period_loss_limit a start equity limit ≡ true
    → LossBelow a start equity limit
unfolding check_period_loss_limit
check_period_loss_limit-LossBelow a none equity limit h = tt
check_period_loss_limit-LossBelow a (some start) equity limit h =
    elim (Bool-cases (num_le start zero_num)) [ inl e ↦ inl e | inr e ↦ inr (ground (arith, e, h)) ]

loss_refusal-none :
    (a : Arithmetic) (policy : RiskPolicy) (synced : Account) (mtm : Marked)
    → policy.loss_circuit_breaker_enabled ≡ true
    → loss_refusal a policy synced mtm.equity ≡ none
    → WithinLosses a policy (refreshed a synced mtm)
unfolding loss_refusal
loss_refusal-none a policy synced mtm enabled h =
    let day =
      check_period_loss_limit a synced.day_start_equity mtm.equity policy.max_daily_loss_pct in
    elim (Bool-cases day) [
      | inl d ↦ (
        check_period_loss_limit-LossBelow a _ _ _ d,
        check_period_loss_limit-LossBelow a _ _ _ (ground (arith, enabled, d)),
      )
      | inr d ↦ cc (rw (enabled, d) at h)
    ]

-- A period's start after the gate: that of the period that was going on, or the equity now where another
-- period has begun.
abbrev pub IsStart : Option ℕ → Option Number → ℕ → Number → Option ℕ → Option Number → Type 0
IsStart key start period equity new_key new_start =
    (new_key ≡ some period)
    × (((key ≡ some period) × (new_start ≡ start))
        ⊎ ((is_key key period ≡ false) × (new_start ≡ some equity)))

abbrev pub HasStarts : Market → Account → Account → Type 0
HasStarts m before after =
    IsStart before.day_key before.day_start_equity m.today after.equity after.day_key
      after.day_start_equity
    × IsStart before.week_key before.week_start_equity m.this_week after.equity after.week_key
        after.week_start_equity

is_key-true : (key : Option ℕ) (k : ℕ) → is_key key k ≡ true → key ≡ some k
is_key-true none k h = cc
is_key-true (some j) k h = ap some ((==_iff j k).0 h)

sync_period_baselines-HasStarts :
    (a : Arithmetic) (m : Market) (state : Account) (mtm : Marked)
    → HasStarts m state (refreshed a (sync_period_baselines m state mtm.equity).0 mtm)
unfolding sync_period_baselines
sync_period_baselines-HasStarts a m state mtm = elim (Bool-cases (is_key state.day_key m.today)) [
  | inl d ↦
      let day = is_key-true state.day_key m.today d in
      elim (Bool-cases (is_key state.week_key m.this_week)) [
        | inl w ↦
            let week = is_key-true state.week_key m.this_week w in
            rw (d, w) ((day, inl (day, refl)), (week, inl (week, refl)))
        | inr w ↦ rw (d, w) ((refl, inl (day, refl)), (refl, inr (refl, refl)))
      ]
  | inr d ↦ elim (Bool-cases (is_key state.week_key m.this_week)) [
    | inl w ↦
        let week = is_key-true state.week_key m.this_week w in
        rw (d, w) ((refl, inr (refl, refl)), (refl, inl (week, refl)))
    | inr w ↦ rw (d, w) ((refl, inr (refl, refl)), (refl, inr (refl, refl)))
  ]
]

-- An entry that the gate lets through respects the loss breaker where that is enabled: neither the loss
-- since the start of the day nor that since the start of the week, each as a share of the equity at that
-- start, reaches its limit, for the starts that the gate hands on and the equity marked to market. These
-- starts are the stored ones where the day or the week is still the stored one, and that equity where a
-- new one has begun. A start that is missing or not positive sets no limit.
pub evaluate_entry_gate-WithinLosses :
    (a : Arithmetic) (m : Market) (state : Account) (policy : RiskPolicy)
    → policy.loss_circuit_breaker_enabled ≡ true
    → (evaluate_entry_gate a m state policy).refusal ≡ none
    → let after = (evaluate_entry_gate a m state policy).state in
      WithinLosses a policy after × HasStarts m state after
unfolding evaluate_entry_gate
evaluate_entry_gate-WithinLosses a m state policy enabled h =
    let mtm = mark_to_market a m state in
    let synced = sync_period_baselines m state mtm.equity in
    elim (Bool-cases mtm.is_ok) [
      | inr e ↦ cc (rw e at h)
      | inl e ↦ elim (Option-cases (loss_refusal a policy synced.0 mtm.equity)) [
        | inl r ↦
            rw (e, r)
              (
                loss_refusal-none a policy synced.0 mtm enabled r,
                sync_period_baselines-HasStarts a m state mtm,
              )
        | inr (x, r) ↦ cc (rw (e, r) at h)
      ]
    ]
