-- ===== src/Pretest/Sound.antt =====
-- The parts of a cycle of pretest.service.ts hand a sound book on, and propose fresh trades.
use open_neotrader.Base.{
  ℕ, refl, Bool, true, false, if◌then◌else◌, Option, none, some, List, [], ◌∷◌, ◌++◌, All,
  Bool-cases, inl, inr,
}
use open_neotrader.Number.{Number, zero_num, num_lt}
use open_neotrader.Exec.{Result, ok, err}
use open_neotrader.Exec.Returns.{
  Returns, Returns-pure, Returns-raise, Returns-if, Returns-bind, Returns-given, Returns-on_option,
}
use open_neotrader.Execution.Account.{Arithmetic, RiskPolicy}
use open_neotrader.Store.Rows.{Refusal}
use open_neotrader.Pretest.State.{
  PretestAction, PretestTrade, PretestPosition, PretestState, PretestExternal, ask,
}
use open_neotrader.Pretest.Fill.{
  fill_at, ToolCall, is_mark, PretestPolicy, fill_proposed, proposal, simulate_fills,
}
use open_neotrader.Pretest.Rebalance.{
  traded, one_rebalance_trade, rebalance_each, build_vol_target_rebalance_trades,
}
use open_neotrader.Pretest.Marks.{mark_all, benchmarked, raise_marks, update_equity_metrics}
use open_neotrader.Pretest.Floor.{
  floor_by, floor_calls, floor_entry, after_gate, reserve, reject, entry_of,
}
use open_neotrader.Pretest.Counting.{IsBook, IsFresh}
use open_neotrader.Pretest.Holdings.{HasOneEach, IsAbsent}
use open_neotrader.Pretest.Cycle.{CycleTurn, cycle_trades}

Returns-ask :
    {A : Type 0} {E : A → Type 0} (f : PretestExternal → ℕ → A)
    → ((e : PretestExternal) (n : ℕ) → E (f e n))
    → Returns E (ask f)
unfolding ask
Returns-ask f h = record { value = λ w. h w.external w.calls_made }

-- The calls of a cycle hand a sound book on.
module _ (a : Arithmetic) where
  -- what a marking leaves sound
  abbrev SameSymbols : List PretestPosition → List PretestPosition → Type 0
  SameSymbols ps ms =
      (HasOneEach ps → HasOneEach ms) × ((symbol : ℕ) → IsAbsent symbol ps → IsAbsent symbol ms)

  Returns-mark_all :
      (ps : List PretestPosition) (closes : ℕ → Number)
      → Returns (SameSymbols ps) (mark_all a ps closes)
  unfolding mark_all
  Returns-mark_all [] closes = Returns-pure _ (λ h. h, λ s h. h)
  Returns-mark_all (p ∷ ps) closes = Returns-bind _ _ (λ quote.
      Returns-given _ _ (Returns-mark_all ps closes) (λ ms same.
        Returns-pure _ (λ h. (same.1 p.symbol h.0, same.0 h.1), λ s h. (h.0, same.1 s h.1))))

  benchmarked-IsBook :
      (symbol : ℕ) (closes : ℕ → Number) (quote : Option Number) (s : PretestState)
      → IsBook s
      → IsBook (raise_marks a (benchmarked a symbol closes quote s))
  unfolding raise_marks
  benchmarked-IsBook symbol closes none s h = h
  benchmarked-IsBook symbol closes (some last) s h =
      elim (Bool-cases (is_mark a symbol closes last)) [ inl e ↦ rw e h | inr e ↦ rw e h ]

  pub Returns-metrics :
      (symbol : ℕ) (s : PretestState) (policy : PretestPolicy) (closes : ℕ → Number)
      → IsBook s
      → Returns IsBook (update_equity_metrics a symbol s policy closes)
  unfolding update_equity_metrics
  Returns-metrics symbol s policy closes h =
      Returns-given _ _ (Returns-mark_all s.positions closes) (λ ms same.
        Returns-bind _ _ (λ arrived.
          Returns-bind _ _
            (λ bench. Returns-pure _ (benchmarked-IsBook symbol closes bench _ (same.0 h.0, h.1)))))

  Fresh-append :
      (ts us : List PretestTrade) → All IsFresh ts → All IsFresh us → All IsFresh (ts ++ us)
  Fresh-append [] us h k = k
  Fresh-append (t ∷ ts) us h k = (h.0, Fresh-append ts us h.1 k)

  Fresh-if :
      (test : Bool) (ts us : List PretestTrade)
      → All IsFresh ts
      → All IsFresh us
      → All IsFresh (if test then ts else us)
  Fresh-if true ts us h k = h
  Fresh-if false ts us h k = k

  Returns-fill_proposed :
      (r : Result (Option (ℕ × PretestAction))) (s : PretestState) (policy : PretestPolicy)
      (closes : ℕ → Number)
      → Returns (All IsFresh) (fill_proposed a r s policy closes)
  Returns-fill_proposed (err e) s policy closes = Returns-raise e
  Returns-fill_proposed (ok none) s policy closes = Returns-pure [] tt
  Returns-fill_proposed (ok (some (symbol, action))) s policy closes = Returns-bind _ _ (λ quote.
      Returns-on_option quote _ _
        (λ last. Returns-if _ _ _ (Returns-ask _ (λ e n. (refl, tt))) (Returns-pure [] tt))
        (Returns-pure [] tt))

  Returns-simulate_fills :
      (tcs : List ToolCall) (s : PretestState) (policy : PretestPolicy) (closes : ℕ → Number)
      → Returns (All IsFresh) (simulate_fills a tcs s policy closes)
  unfolding simulate_fills
  Returns-simulate_fills [] s policy closes = Returns-pure [] tt
  Returns-simulate_fills (tc ∷ tcs) s policy closes =
      Returns-given _ _ (Returns-fill_proposed (proposal tc s) s policy closes) (λ ts fresh.
        Returns-given _ _ (Returns-simulate_fills tcs s policy closes)
          (λ us more. Returns-pure _ (Fresh-append ts us fresh more)))

  traded-Fresh :
      (p : PretestPosition) (action : PretestAction) (price quantity : Number) (ts : ℕ)
      → All IsFresh (traded a p action price quantity ts)
  traded-Fresh p action price quantity ts =
      Fresh-if (num_lt zero_num quantity) (fill_at a p.symbol action price quantity ts ∷ []) []
        (refl, tt) tt

  one_rebalance_trade-Fresh :
      (p : PretestPosition) (price delta : Number) (ts : ℕ)
      → All IsFresh (one_rebalance_trade a p price delta ts)
  unfolding one_rebalance_trade
  one_rebalance_trade-Fresh p price delta ts = search (Fresh-if, traded-Fresh) depth 6

  rebalance_each-Fresh :
      (ps : List (PretestPosition × Number)) (delta current : Number) (ts : ℕ)
      → All IsFresh (rebalance_each a ps delta current ts)
  rebalance_each-Fresh [] delta current ts = tt
  rebalance_each-Fresh ((p, price) ∷ ps) delta current ts =
      Fresh-append _ _ (one_rebalance_trade-Fresh p price _ ts)
        (rebalance_each-Fresh ps delta current ts)

  Returns-rebalances :
      (s : PretestState) (x : Number) (closes : ℕ → Number)
      → Returns (All IsFresh) (build_vol_target_rebalance_trades a s x closes)
  unfolding build_vol_target_rebalance_trades
  Returns-rebalances s x closes = Returns-if _ _ _ (Returns-pure [] tt) (
      Returns-bind _ _ (λ marks.
        Returns-if _ _ _ (Returns-pure [] tt)
          (Returns-ask _ (λ e n. rebalance_each-Fresh marks _ _ (e.now n)))))

  pub Returns-cycle_trades :
      (turn : CycleTurn) (policy : PretestPolicy) (tcs : List ToolCall) (s : PretestState)
      → Returns (All IsFresh) (cycle_trades a turn policy tcs s)
  unfolding cycle_trades
  Returns-cycle_trades turn policy tcs s =
      Returns-given _ _ (Returns-simulate_fills tcs s policy turn.reference_closes) (λ ts fresh.
        Returns-given _ _
          (Returns-on_option {E = All IsFresh} turn.exposure_scalar _ _
            (λ x. Returns-rebalances s x turn.reference_closes) (Returns-pure [] tt))
          (λ us more. Returns-pure _ (Fresh-append ts us fresh more)))

Returns-after_gate :
    (refusal : Option Refusal) (policy : RiskPolicy) (symbol : ℕ) (s : PretestState) (r : List ℕ)
    → IsBook s
    → Returns (λ step. IsBook step.state) (after_gate refusal policy symbol s r)
unfolding reserve reject
Returns-after_gate none policy symbol s r h =
    Returns-if _ _ _ (Returns-pure _ h)
      (Returns-if _ _ _ (Returns-bind _ _ (λ _. Returns-pure _ h)) (Returns-pure _ h))
Returns-after_gate (some x) policy symbol s r h = Returns-bind _ _ (λ _. Returns-pure _ h)

Returns-floor_by :
    (entry : Result (Option ℕ)) (policy : RiskPolicy) (s : PretestState) (r : List ℕ)
    → IsBook s
    → Returns (λ step. IsBook step.state) (floor_by entry policy s r)
unfolding floor_entry
Returns-floor_by (err e) policy s r h = Returns-raise e
Returns-floor_by (ok none) policy s r h = Returns-pure _ h
Returns-floor_by (ok (some symbol)) policy s r h =
    Returns-bind _ _ (λ a. Returns-bind _ _ (λ m. Returns-after_gate _ policy symbol _ r h))

pub Returns-floor_calls :
    (policy : RiskPolicy) (tcs : List ToolCall) (s : PretestState) (r : List ℕ)
    → IsBook s
    → Returns (λ result. IsBook result.1) (floor_calls policy tcs s r)
unfolding floor_calls
Returns-floor_calls policy [] s r h = Returns-pure _ h
Returns-floor_calls policy (tc ∷ tcs) s r h =
    Returns-given _ _ (Returns-floor_by (entry_of tc) policy s r h) (λ step book.
      Returns-given _ _ (Returns-floor_calls policy tcs step.state step.reserved book)
        (λ rest sound. Returns-pure _ sound))
