-- ===== src/TradeIntent/Bounds.antt =====
-- The limits that `_readExecutionPolicy` of trade-intent.service.ts lets through, whatever the table
-- holds.
use open_neotrader.Base.{◌≡◌, refl, true, false, Bool-cases, inl, inr, String, Option}
use open_neotrader.Number.{Number, is_finite, num_of, zero_num, num_lt, num_le, num_lt_irrefl}
use open_neotrader.Common.Kv.{Readers, kv_num, kv_num-is_finite}
use open_neotrader.Execution.Account.{Arithmetic}
use open_neotrader.TradeIntent.Policy.{
  ExecutionPolicy, RawPolicy, binary, one_tenth, six_percent, three_percent, above_zero_up_to,
  at_least_one, positive_or, policy_of,
}

-- a finite number in `(0, top]`
abbrev pub IsUpTo : Number → Number → Type 0
IsUpTo top n = (is_finite n ≡ true) × (num_le n zero_num ≡ false) × (num_lt top n ≡ false)

abbrev pub IsInRange : ExecutionPolicy → Type 0
IsInRange p =
    IsUpTo (num_of 1) p.max_position_pct
    × (num_lt p.max_open_positions (num_of 1) ≡ false)
    × IsUpTo (num_of 100) p.max_drawdown_halt_pct
    × (is_finite p.max_order_notional ≡ true)
    × (num_le p.max_order_notional zero_num ≡ false)
    × IsUpTo (num_of 1) p.max_short_notional_pct
    × IsUpTo (num_of 1) p.max_daily_loss_pct
    × IsUpTo (num_of 1) p.max_weekly_loss_pct

above_zero-IsUpTo :
    (top fallback n : Number)
    → is_finite n ≡ true
    → IsUpTo top fallback
    → IsUpTo top (above_zero_up_to top fallback n)
unfolding above_zero_up_to
above_zero-IsUpTo top fallback n finite h = elim (Bool-cases (num_le n zero_num)) [
  | inl e ↦ rw e h
  | inr e ↦ elim (Bool-cases (num_lt top n)) [
    | inl x ↦ rw (e, x) h
    | inr x ↦ rw (e, x) (finite, e, x)
  ]
]

at_least_one_lem : (n : Number) → num_lt (at_least_one n) (num_of 1) ≡ false
unfolding at_least_one
at_least_one_lem n = elim (Bool-cases (num_lt n (num_of 1))) [
  | inl e ↦ rw e (num_lt_irrefl (num_of 1))
  | inr e ↦ rw e e
]

positive_or_lem :
    (n : Number)
    → is_finite n ≡ true
    → let m = positive_or (num_of 1000) n in (is_finite m ≡ true) × (num_le m zero_num ≡ false)
unfolding positive_or num_of
positive_or_lem n finite = elim (Bool-cases (num_le n zero_num)) [
  | inl e ↦ rw e (refl, refl)
  | inr e ↦ rw e (finite, e)
]

fraction :
    (r : Readers) (v : Option String) (top fallback : Number)
    → IsUpTo top fallback
    → IsUpTo top (above_zero_up_to top fallback (kv_num r v fallback))
fraction r v top fallback h = above_zero-IsUpTo top fallback _ (kv_num-is_finite r v fallback h.0) h

one_tenth-IsUpTo : IsUpTo (num_of 1) one_tenth
unfolding one_tenth binary num_of
one_tenth-IsUpTo = (refl, refl, refl)

three_percent-IsUpTo : IsUpTo (num_of 1) three_percent
unfolding three_percent binary num_of
three_percent-IsUpTo = (refl, refl, refl)

six_percent-IsUpTo : IsUpTo (num_of 1) six_percent
unfolding six_percent binary num_of
six_percent-IsUpTo = (refl, refl, refl)

halt_default-IsUpTo : IsUpTo (num_of 100) (num_of 25)
unfolding num_of
halt_default-IsUpTo = (refl, refl, refl)

thousand_finite : is_finite (num_of 1000) ≡ true
unfolding num_of
thousand_finite = refl

-- A policy that is read is always usable: whatever texts the key-value table holds, and whatever
-- rounding makes of them, each fraction is finite, above 0 and at most 1, the drawdown that halts is
-- above 0 and at most 100, the notional ceiling is finite and positive, and the number of positions is
-- not below 1.
pub policy_of-IsInRange :
    (r : Readers) (a : Arithmetic) (raw : RawPolicy) → IsInRange (policy_of r a raw)
unfolding policy_of
policy_of-IsInRange r a raw = (
  fraction r _ _ _ one_tenth-IsUpTo,
  at_least_one_lem _,
  fraction r _ _ _ halt_default-IsUpTo,
  (positive_or_lem _ (kv_num-is_finite r _ _ thousand_finite)).0,
  (positive_or_lem _ (kv_num-is_finite r _ _ thousand_finite)).1,
  fraction r _ _ _ one_tenth-IsUpTo,
  fraction r _ _ _ three_percent-IsUpTo,
  fraction r _ _ _ six_percent-IsUpTo,
)
