-- ===== src/Pretest/Peaks.antt =====
-- What a mark to market by `_updateEquityMetrics` of pretest.service.ts keeps and what it raises.
use open_neotrader.Base.{
  ℕ, suc, ◌≡◌, refl, ◌∙◌, false, Option, none, some, List, [], ◌∷◌, arith, Bool-cases, inl, inr,
  map,
}
use open_neotrader.Number.{Number, num_lt}
use open_neotrader.Exec.{ok, pure, continue, ◌>>=◌}
use open_neotrader.Execution.Account.{Arithmetic}
use open_neotrader.Pretest.State.{PretestPosition, PretestState, Pretests, ask}
use open_neotrader.Pretest.Fill.{PretestPolicy, mark_by, is_mark}
use open_neotrader.Pretest.Marks.{
  revalued, mark_all, benchmarked, larger, drawdown_of, raise_marks, revalue, update_equity_metrics,
}

larger_bounds :
    (old fresh : Number)
    → (num_lt (larger old fresh) old ≡ false) × (num_lt (larger old fresh) fresh ≡ false)
larger_bounds old fresh = ground arith

-- what a position is, apart from its price
abbrev pub holding : PretestPosition → ℕ × Number × Number
holding p = (p.symbol, p.quantity, p.avg_price)

-- what a mark to market leaves as it is
abbrev pub SameBook : PretestState → PretestState → Type 0
SameBook before after =
    (map holding after.positions ≡ map holding before.positions)
    × (after.trades ≡ before.trades)
    × (after.win_trades ≡ before.win_trades)
    × (after.loss_trades ≡ before.loss_trades)

module _ (a : Arithmetic) where
  -- The maxima do not compare below what they were, nor below what they are the maxima of.
  abbrev pub IsRaised : PretestState → PretestState → Type 0
  IsRaised before after =
      (num_lt after.max_equity before.max_equity ≡ false)
      × (num_lt after.max_equity after.equity ≡ false)
      × (num_lt after.max_drawdown_pct before.max_drawdown_pct ≡ false)
      × (num_lt after.max_drawdown_pct (drawdown_of a after.max_equity after.equity) ≡ false)

  mark_all-returns :
      (ps : List PretestPosition) (closes : ℕ → Number) (w : Pretests)
      → (ms : List PretestPosition) × ((mark_all a ps closes w).0 ≡ ok ms)
        × (map holding ms ≡ map holding ps)
  unfolding mark_all ask ◌>>=◌ pure continue
  mark_all-returns [] closes w = ([], refl, refl)
  mark_all-returns (p ∷ ps) closes w =
      let next = record w { calls_made = suc w.calls_made } in
      let (ms, is, same) = mark_all-returns ps closes next in
      let price = mark_by a p closes (w.external.quote w.calls_made p.symbol) in
      (revalued a price p ∷ ms, rw is refl, rw same refl)

  raised : (s : PretestState) → IsRaised s (raise_marks a s) × SameBook s (raise_marks a s)
  unfolding raise_marks
  raised s =
      let peak = larger_bounds s.max_equity s.equity in
      let low =
        larger_bounds s.max_drawdown_pct (drawdown_of a (larger s.max_equity s.equity) s.equity) in
      ((peak.0, peak.1, low.0, low.1), (refl, refl, refl, refl))

  benchmarked-IsRaised :
      (symbol : ℕ) (closes : ℕ → Number) (quote : Option Number) (s : PretestState)
      → let t = raise_marks a (benchmarked a symbol closes quote s) in IsRaised s t × SameBook s t
  unfolding raise_marks
  benchmarked-IsRaised symbol closes none s = raised s
  benchmarked-IsRaised symbol closes (some last) s =
      elim (Bool-cases (is_mark a symbol closes last)) [
        | inl e ↦ rw e (raised s)
        | inr e ↦ rw e (raised s)
      ]

-- A mark to market is total, and its maxima are maxima: whatever the quotes are and whether or not they
-- arrive, it returns a state; that state holds the same positions at the same cost and the same trades
-- and counts as before; its maximal equity and its maximal drawdown do not compare below what they were,
-- nor below the equity and the drawdown that it has.
pub update_equity_metrics-IsRaised :
    (a : Arithmetic) (benchmark_symbol : ℕ) (s : PretestState) (policy : PretestPolicy)
    (closes : ℕ → Number) (w : Pretests)
    → (after : PretestState) × ((update_equity_metrics a benchmark_symbol s policy closes w).0
        ≡ ok after)
      × IsRaised a s after
      × SameBook s after
unfolding update_equity_metrics ask ◌>>=◌ pure continue
update_equity_metrics-IsRaised a benchmark_symbol s policy closes w =
    let (ms, is, same) = mark_all-returns a s.positions closes w in
    let u = (mark_all a s.positions closes w).1 in
    let arrived = u.external.arrival u.calls_made ms in
    let bench = u.external.quote (suc u.calls_made) benchmark_symbol in
    let valued = revalue a policy.borrow_cost_pct ms arrived s in
    let (up, (positions, trades, wins, losses)) =
      benchmarked-IsRaised a benchmark_symbol closes bench valued in
    (
      raise_marks a (benchmarked a benchmark_symbol closes bench valued),
      rw is refl,
      up,
      (positions ∙ same, trades, wins, losses),
    )
