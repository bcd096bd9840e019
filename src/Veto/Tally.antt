-- ===== src/Veto/Tally.antt =====
-- The summary of `backfill` in veto-analyzer.service.ts, and the guard of its tick.
use open_neotrader.Base.{ℕ, suc, ◌+◌, ◌≡◌, refl, true, List, [], ◌∷◌, length, arith}
use open_neotrader.Number.{Number}
use open_neotrader.Exec.{Result, ok, err, pure, attempt, continue, ◌>>=◌, gets}
use open_neotrader.Exec.Leads.{Yields}
use open_neotrader.Exec.Returns.{Returns, returns_rules, Returns-pure, Returns-bind, Returns-if}
use open_neotrader.Veto.State.{VetoDecisionRow, OhlcvBar, VetoLedger, find_decisions, store_call}
use open_neotrader.Veto.Mark.{BackfillOptions, ResolvedBackfillOptions, resolve_options}
use open_neotrader.Veto.Backfill.{
  BackfillSummary, empty_summary, tallied, write_evaluation, give_up, evaluate_mature,
  evaluate_priced, refuse_price, refuse_action, evaluate_row, backfill_rows, backfill,
}
use open_neotrader.Veto.Ledger.{selected}

-- how many rows a summary speaks of
abbrev pub total : BackfillSummary → ℕ
total s =
    s.evaluated + s.insufficient_data + s.unsupported_action + s.invalid_ref_price + s.pending
    + s.errors

module _ (opts : ResolvedBackfillOptions) (row : VetoDecisionRow) (s : BackfillSummary) where
  abbrev CountsOne : BackfillSummary → Type 0
  CountsOne t = total t ≡ suc (total s)

  Returns-counted :
      (t : BackfillSummary) → CountsOne t → Returns {W = VetoLedger} CountsOne (pure t)
  Returns-counted t e = Returns-pure t e

  Returns-write_evaluation :
      (p : Number) (b : OhlcvBar) → Returns CountsOne (write_evaluation opts row s p b)
  unfolding write_evaluation
  Returns-write_evaluation p b =
      search
        (returns_rules, Returns-counted (record s { evaluated = suc s.evaluated }) (omega arith))
        depth 12

  Returns-give_up : Returns CountsOne (give_up opts row s)
  unfolding give_up
  Returns-give_up =
      search
        (
          returns_rules,
          Returns-counted (record s { insufficient_data = suc s.insufficient_data }) (omega arith),
        )
        depth 12

  Returns-refuse_price : Returns CountsOne (refuse_price opts row s)
  unfolding refuse_price
  Returns-refuse_price =
      search
        (
          returns_rules,
          Returns-counted (record s { invalid_ref_price = suc s.invalid_ref_price }) (omega arith),
        )
        depth 12

  Returns-refuse_action : Returns CountsOne (refuse_action opts row s)
  unfolding refuse_action
  Returns-refuse_action =
      search
        (
          returns_rules,
          Returns-counted (record s { unsupported_action = suc s.unsupported_action })
              (omega arith),
        )
        depth 12

  Returns-evaluate_mature :
      (p : Number) (now : ℕ) → Returns CountsOne (evaluate_mature opts row s p now)
  unfolding evaluate_mature
  Returns-evaluate_mature p now =
      search (returns_rules, Returns-give_up, Returns-write_evaluation) depth 20

  Returns-evaluate_priced : (p : Number) → Returns CountsOne (evaluate_priced opts row s p)
  unfolding evaluate_priced
  Returns-evaluate_priced p = Returns-bind _ _ (λ now.
      Returns-if _ _ _ (Returns-evaluate_mature p now)
        (Returns-counted (record s { pending = suc s.pending }) (omega arith)))

  Returns-evaluate_row : Returns CountsOne (evaluate_row opts row s)
  unfolding evaluate_row
  Returns-evaluate_row =
      search (returns_rules, Returns-refuse_action, Returns-refuse_price, Returns-evaluate_priced)
        depth 12

total-tallied :
    (r : Result BackfillSummary) (s : BackfillSummary)
    → Yields (λ t. total t ≡ suc (total s)) r
    → total (tallied r s) ≡ suc (total s)
total-tallied (ok t) s y = y
total-tallied (err e) s y = omega arith

-- what a loop over rows returns
abbrev IsTally : ℕ → Result BackfillSummary → Type 0
IsTally n r = (s : BackfillSummary) × (r ≡ ok s) × (total s ≡ n)

backfill_rows-total :
    (opts : ResolvedBackfillOptions) (rows : List VetoDecisionRow) (s : BackfillSummary)
    (w : VetoLedger)
    → IsTally (total s + length rows) (backfill_rows opts rows s w).0
unfolding backfill_rows pure attempt continue ◌>>=◌
backfill_rows-total opts [] s w = (s, refl, omega arith)
backfill_rows-total opts (row ∷ rows) s w =
    let r = evaluate_row opts row s w in
    let (t, is, sum) = backfill_rows-total opts rows (tallied r.0 s) r.1 in
    (t, is, omega (arith, sum, total-tallied r.0 s ((Returns-evaluate_row opts row s).value w)))

-- A sweep accounts for every row: where the rows can be read, it returns a summary, whatever else fails,
-- and its six counts add up to the number of the rows that were selected.
pub backfill-total :
    (opts : BackfillOptions) (w : VetoLedger)
    → w.external.store_works w.calls_made ≡ true
    → (s : BackfillSummary) × ((backfill opts w).0 ≡ ok s)
      × (total s ≡ length (selected opts w.decisions))
unfolding backfill find_decisions store_call continue ◌>>=◌ gets
backfill-total opts w works =
    let after = record w { calls_made = suc w.calls_made } in
    let (s, is, sum) =
      backfill_rows-total (resolve_options opts) (selected opts w.decisions) empty_summary after in
    rw works (s, is, omega (arith, sum))
