-- ===== src/Veto/Ledger.antt =====
-- What `backfill` of veto-analyzer.service.ts does to the ledger of vetoed signals.
use open_neotrader.Base.{
  some_eq, subst, sym, ℕ, suc, String, ◌≡◌, refl, Bool, false, Option, none, some, List, [], ◌∷◌,
  find, select, update_where, All, ◌==◌, is_some, arith, Bool-cases, inl, inr, some_of,
}
use open_neotrader.Number.{Number}
use open_neotrader.Exec.{◌>>=◌}
use open_neotrader.Exec.Keeps.{Keeps, keeps_rules, Keeps-bind, Keeps-pure, Keeps-attempt}
use open_neotrader.Veto.State.{
  CfMethod, unsupported_action, insufficient_data, invalid_ref_price, fixed_horizon,
  VetoDecisionRow, VetoExternal, VetoLedger, store_call, ask, find_decisions, update_decision,
}
use open_neotrader.Veto.Mark.{BackfillOptions, ResolvedBackfillOptions, resolve_options}
use open_neotrader.Veto.Plugins.{is_evaluation}
use open_neotrader.Veto.Backfill.{
  empty_summary, BackfillSummary, is_selected, get_ohlcv, completed, mark_unresolvable,
  write_evaluation, give_up, evaluate_mature, evaluate_priced, refuse_price, refuse_action,
  evaluate_row, backfill_rows, backfill,
}

-- The completed forms of a row: what the analyzer writes into it.
pub data Completes : Option Number → CfMethod → Type 0 where
  no_action : Completes none unsupported_action
  no_data : Completes none insufficient_data
  no_price : Completes none invalid_ref_price
  value :
      (v : Number) (horizon : ℕ) (timeframe : String) (cost : Number)
      → Completes (some v) (fixed_horizon horizon timeframe cost)

Completes-agrees :
    {pnl : Option Number} {method : CfMethod}
    → Completes pnl method
    → is_some pnl ≡ is_evaluation (some method)
Completes-agrees no_action = refl
Completes-agrees no_data = refl
Completes-agrees no_price = refl
Completes-agrees (value v h t c) = refl

-- A predicate on the rows of the ledger that completing the row `id` keeps.
pub record StandsRow (P : List VetoDecisionRow → Type 0) (id : ℕ) : Type 0 where
  pub at_completion :
      (pnl : Option Number) (method : CfMethod)
      → Completes pnl method
      → (time : ℕ) (rows : List VetoDecisionRow) → P rows
      → P (update_where (λ r. r.id == id) (completed pnl method time) rows)

abbrev pub OnRows : (List VetoDecisionRow → Type 0) → VetoLedger → Type 0
OnRows P w = P w.decisions

module _ {P : List VetoDecisionRow → Type 0} {id : ℕ} (s : StandsRow P id) where
  Keeps-ask : {A : Type 0} (f : VetoExternal → ℕ → A) → Keeps (OnRows P) (ask f)
  unfolding ask
  Keeps-ask f = record { at = λ w h. h }

  Keeps-update :
      (pnl : Option Number) (method : CfMethod) (time : ℕ)
      → Completes pnl method
      → Keeps (OnRows P) (update_decision id (completed pnl method time))
  unfolding update_decision store_call ◌>>=◌
  Keeps-update pnl method time c = record {
    at = λ w h. elim (Bool-cases (w.external.store_works w.calls_made)) [
      | inl x ↦ elim (Bool-cases (some_of (λ r. r.id == id) w.decisions)) [
        | inl y ↦ rw (x, y) (s.at_completion pnl method c time w.decisions h)
        | inr y ↦ rw (x, y) h
      ]
      | inr x ↦ rw x h
    ];
  }

module _ {P : List VetoDecisionRow → Type 0} (opts : ResolvedBackfillOptions)
    (row : VetoDecisionRow) (summary : BackfillSummary) (s : StandsRow P row.id) where
  ruleset row_rules = (keeps_rules, Keeps-ask, Keeps-update, no_action, no_data, no_price, value)

  Keeps-mark_unresolvable :
      (method : CfMethod) → Completes none method → Keeps (OnRows P) (mark_unresolvable row method)
  unfolding mark_unresolvable
  Keeps-mark_unresolvable method c = search (row_rules, c) depth 12

  Keeps-evaluate_row : Keeps (OnRows P) (evaluate_row opts row summary)
  unfolding evaluate_row refuse_action refuse_price evaluate_priced evaluate_mature give_up
      write_evaluation get_ohlcv
  Keeps-evaluate_row = search (row_rules, Keeps-mark_unresolvable) depth 30

-- every row that is looked at may be completed
abbrev pub StandsRows : (List VetoDecisionRow → Type 0) → List VetoDecisionRow → Type 0
StandsRows P rows = All (λ r. StandsRow P r.id) rows

Keeps-backfill_rows :
    (P : List VetoDecisionRow → Type 0) (opts : ResolvedBackfillOptions)
    (rows : List VetoDecisionRow) (summary : BackfillSummary)
    → StandsRows P rows
    → Keeps (OnRows P) (backfill_rows opts rows summary)
unfolding backfill_rows
Keeps-backfill_rows P opts [] summary s = Keeps-pure summary
Keeps-backfill_rows P opts (row ∷ rows) summary s =
    Keeps-bind _ _ (Keeps-attempt _ (Keeps-evaluate_row opts row summary s.0))
      (λ outcome. Keeps-backfill_rows P opts rows _ s.1)

-- the rows that a sweep looks at
abbrev pub selected : BackfillOptions → List VetoDecisionRow → List VetoDecisionRow
selected opts rows = select (is_selected (resolve_options opts).reprocess_insufficient) rows

kept_by_backfill :
    (P : List VetoDecisionRow → Type 0) (opts : BackfillOptions) (w : VetoLedger)
    → StandsRows P (selected opts w.decisions)
    → P w.decisions
    → P (backfill opts w).1.decisions
unfolding backfill find_decisions store_call ◌>>=◌
kept_by_backfill P opts w s h = elim (Bool-cases (w.external.store_works w.calls_made)) [
  | inl x ↦ rw x (
      (Keeps-backfill_rows P (resolve_options opts) (selected opts w.decisions) empty_summary s).at
        (record w { calls_made = suc w.calls_made }) h)
  | inr x ↦ rw x h
]

-- A row has a value exactly where its method says that it was evaluated.
abbrev pub IsConsistent : VetoDecisionRow → Type 0
IsConsistent row = is_some row.cf_pnl ≡ is_evaluation row.cf_method

completed-IsConsistent :
    (id time : ℕ) {pnl : Option Number} {method : CfMethod}
    → Completes pnl method
    → (rows : List VetoDecisionRow) → All IsConsistent rows
    → All IsConsistent (update_where (λ r. r.id == id) (completed pnl method time) rows)
completed-IsConsistent id time c [] h = tt
completed-IsConsistent id time c (r ∷ rows) h = elim (Bool-cases (r.id == id)) [
  | inl e ↦ rw e (Completes-agrees c, completed-IsConsistent id time c rows h.1)
  | inr e ↦ rw e (h.0, completed-IsConsistent id time c rows h.1)
]

everywhere :
    (P : List VetoDecisionRow → Type 0)
    → ((id : ℕ) → StandsRow P id)
    → (rows : List VetoDecisionRow) → StandsRows P rows
everywhere P s [] = tt
everywhere P s (r ∷ rows) = (s r.id, everywhere P s rows)

-- The ledger stays consistent: after a sweep, whatever is answered and even where it throws, a row has a
-- value `cf_pnl` exactly where its `cf_method` says that it was evaluated, if that held before.
pub backfill-IsConsistent :
    (opts : BackfillOptions) (w : VetoLedger)
    → All IsConsistent w.decisions
    → All IsConsistent (backfill opts w).1.decisions
backfill-IsConsistent opts w h =
    kept_by_backfill (All IsConsistent) opts w
      (everywhere _
        (λ id. record { at_completion = λ pnl method c time. completed-IsConsistent id time c }) _)
      h

abbrev pub HasUniqueIds : List VetoDecisionRow → Type 0
HasUniqueIds [] = Unit
HasUniqueIds (r ∷ rows) = All (λ s. (s.id == r.id) ≡ false) rows × HasUniqueIds rows

module _ (id : ℕ) where
  find_after :
      (other time : ℕ) (pnl : Option Number) (method : CfMethod) {r : VetoDecisionRow}
      → (other == id) ≡ false
      → (rows : List VetoDecisionRow) → find (λ s. s.id == id) rows ≡ some r
      → find (λ s. s.id == id) (update_where (λ s. s.id == other) (completed pnl method time) rows)
        ≡ some r
  find_after other time pnl method ne [] h = h
  find_after other time pnl method ne (s ∷ rows) h = elim (Bool-cases (s.id == other)) [
    | inl e ↦
        let d : (s.id == id) ≡ false = ground (arith, e, ne) in
        rw (e, d) (find_after other time pnl method ne rows (rw d at h))
    | inr e ↦ elim (Bool-cases (s.id == id)) [
      | inl d ↦ rw (e, d) (rw d at h)
      | inr d ↦ rw (e, d) (find_after other time pnl method ne rows (rw d at h))
    ]
  ]

  others_of :
      (p : VetoDecisionRow → Bool) (other : ℕ) (rows : List VetoDecisionRow)
      → other ≡ id
      → All (λ s. (s.id == other) ≡ false) rows
      → All (λ s. (s.id == id) ≡ false) (select p rows)
  others_of p other [] e h = tt
  others_of p other (s ∷ rows) e h = elim (Bool-cases (p s)) [
    | inl x ↦ rw x (rw e at h.0, others_of p other rows e h.1)
    | inr x ↦ rw x (others_of p other rows e h.1)
  ]

  others_selected :
      (p : VetoDecisionRow → Bool) (rows : List VetoDecisionRow) {r : VetoDecisionRow}
      → HasUniqueIds rows
      → find (λ s. s.id == id) rows ≡ some r
      → p r ≡ false
      → All (λ s. (s.id == id) ≡ false) (select p rows)
  others_selected p [] u h n = tt
  others_selected p (s ∷ rows) {r} u h n = elim (Bool-cases (s.id == id)) [
    | inl d ↦
        rw (subst (λ z. p z ≡ false) (sym (some_eq (rw d at h))) n)
          (others_of p s.id rows (ground (arith, d)) u.0)
    | inr d ↦
        let rest = others_selected p rows u.1 (rw d at h) n in
        elim (Bool-cases (p s)) [ inl x ↦ rw x (d, rest) | inr x ↦ rw x rest ]
  ]

  others_stand :
      (r : VetoDecisionRow) (rows : List VetoDecisionRow)
      → All (λ s. (s.id == id) ≡ false) rows
      → StandsRows (λ all. find (λ s. s.id == id) all ≡ some r) rows
  others_stand r [] h = tt
  others_stand r (s ∷ rows) h = (
    record { at_completion = λ pnl method c time. find_after s.id time pnl method h.0 },
    others_stand r rows h.1,
  )

-- What was evaluated is never rewritten: in a ledger whose ids are unique, a row that the sweep does not
-- select stays as it is, whatever is answered. These are the rows with a value, and those with a method
-- already, except that a sweep that is asked to reprocess takes up the ones marked `insufficient_data`.
pub backfill-others :
    (opts : BackfillOptions) (id : ℕ) (w : VetoLedger) {r : VetoDecisionRow}
    → HasUniqueIds w.decisions
    → find (λ s. s.id == id) w.decisions ≡ some r
    → is_selected (resolve_options opts).reprocess_insufficient r ≡ false
    → find (λ s. s.id == id) (backfill opts w).1.decisions ≡ some r
backfill-others opts id w unique found settled =
    kept_by_backfill (λ all. find (λ s. s.id == id) all ≡ some _) opts w
      (others_stand id _ _ (others_selected id _ w.decisions unique found settled)) found
