-- ===== src/Pretest/Flat.antt =====
-- What an `exit` of a cycle does to the portfolio of pretest.service.ts: the fill of `_simulateFills`
-- applied by `_applyTrades`.
use open_neotrader.Base.{
  ℕ, zero, suc, ◌≢◌, ◌≡◌, refl, ◌∙◌, Bool, true, false, Option, none, some, List, [], ◌∷◌, ◌++◌,
  find, ◌==◌, arith, Bool-cases, inl, inr, ap, subst, find-satisfies, some_eq, ==_iff,
}
use open_neotrader.Number.{ℤ, pos, negsuc, Number, finite, zero_num, num_lt, num_le, num_min}
use open_neotrader.Exec.{Result, ok, pure, continue, ◌>>=◌, on_option}
use open_neotrader.Execution.Account.{Arithmetic}
use open_neotrader.Pretest.State.{
  PretestAction, close, cover, PretestTrade, PretestPosition, PretestState, Pretests, ask,
}
use open_neotrader.Pretest.Book.{
  is_at, is_short_at, remove_first, apply_sell, apply_cover, apply_trades,
}
use open_neotrader.Pretest.Fill.{
  PretestPolicy, ToolCall, word, map_intent_action, calc_quantity, is_usable, fill_at, slipped,
  exit_of, held_long, held_short, proposal, simulate_fills, fill_proposed,
}
use open_neotrader.Pretest.Holdings.{HasOneEach, IsAbsent}

-- What rounding arithmetic promises of equal operands: their difference is exact.
pub record Cancels (a : Arithmetic) : Type 0 where
  pub sub_self : (z : ℤ) → a.sub (finite z) (finite z) ≡ zero_num
  pub add_opposite : (n : ℕ) → a.add (finite (negsuc n)) (finite (pos (suc n))) ≡ zero_num

find-IsAbsent :
    (symbol : ℕ) (ps : List PretestPosition) → IsAbsent symbol ps → find (is_at symbol) ps ≡ none
find-IsAbsent symbol [] h = refl
find-IsAbsent symbol (p ∷ ps) h = rw h.0 (find-IsAbsent symbol ps h.1)

-- the first position of a symbol matches, and is taken out
remove_first-gone :
    (matches : PretestPosition → Bool) (symbol : ℕ) (ps : List PretestPosition)
    {p : PretestPosition}
    → ((q : PretestPosition) → (q.symbol == symbol) ≡ false → matches q ≡ false)
    → find (is_at symbol) ps ≡ some p
    → matches p ≡ true
    → HasOneEach ps
    → find (is_at symbol) (remove_first matches ps) ≡ none
remove_first-gone matches symbol [] {p} other found is one = refl
remove_first-gone matches symbol (q ∷ ps) {p} other found is one =
    elim (Bool-cases (q.symbol == symbol)) [
      | inl e ↦
          let same = ap matches (some_eq (rw e at found)) in
          rw (same ∙ is) (
            find-IsAbsent symbol ps
              (subst (λ s. IsAbsent s ps) ((==_iff q.symbol symbol).0 e) one.0))
      | inr e ↦
          rw (other q e, e) (remove_first-gone matches symbol ps other (rw e at found) is one.1)
    ]

find-is_short_at :
    (symbol : ℕ) (ps : List PretestPosition) {p : PretestPosition}
    → find (is_at symbol) ps ≡ some p
    → num_lt p.quantity zero_num ≡ true
    → find (is_short_at symbol) ps ≡ some p
find-is_short_at symbol [] found below = ground (arith, found)
find-is_short_at symbol (q ∷ ps) {p} found below = elim (Bool-cases (q.symbol == symbol)) [
  | inl e ↦ let same = some_eq (rw e at found) in rw (e, same, below) refl
  | inr e ↦ rw e (find-is_short_at symbol ps (rw e at found) below)
]

min_self : (z : ℤ) → num_min (finite z) (finite z) ≡ finite z
min_self z = elim (Bool-cases (num_lt (finite z) (finite z))) [
  | inl e ↦ rw e refl
  | inr e ↦ rw e refl
]

positive_lem : (n : ℕ) → num_le (finite (pos (suc n))) zero_num ≡ false
positive_lem n = ground arith

module _ (n : ℕ) (p : PretestPosition) where
  exit_of_long : p.quantity ≡ finite (pos (suc n)) → exit_of (some p) ≡ some close
  exit_of_long h = rw h (ground arith)

  exit_of_short : p.quantity ≡ finite (negsuc n) → exit_of (some p) ≡ some cover
  exit_of_short h = rw h (ground arith)

  held_long_lem : p.quantity ≡ finite (pos (suc n)) → held_long (some p) ≡ finite (pos (suc n))
  held_long_lem h = rw h (ground arith)

  held_short_lem : p.quantity ≡ finite (negsuc n) → held_short (some p) ≡ finite (pos (suc n))
  held_short_lem h = rw h (ground arith)

-- the tool call that leaves a symbol
abbrev pub exit_call : ℕ → ToolCall
exit_call symbol = record { symbol = some symbol; action = word "exit" }

proposed :
    (symbol : ℕ) (s : PretestState) (action : PretestAction)
    → map_intent_action "exit" symbol s ≡ some action
    → proposal (exit_call symbol) s ≡ ok (some (symbol, action))
proposed symbol s action h =
    ap (λ o. ok (elim o [ some mapped ↦ some (symbol, mapped) | none ↦ none ])) h

exit_mapped :
    (symbol : ℕ) (s : PretestState) (action : PretestAction) {p : PretestPosition}
    → find (is_at symbol) s.positions ≡ some p
    → exit_of (some p) ≡ some action
    → map_intent_action "exit" symbol s ≡ some action
unfolding map_intent_action
exit_mapped symbol s action found h = ap exit_of found ∙ h

module _ (a : Arithmetic) (exact : Cancels a) where
  apply_sell-gone :
      (s : PretestState) (t : PretestTrade) (c : Number) (n : ℕ) {p : PretestPosition}
      → find (is_at t.symbol) s.positions ≡ some p
      → p.quantity ≡ finite (pos (suc n))
      → t.quantity ≡ finite (pos (suc n))
      → HasOneEach s.positions
      → find (is_at t.symbol) (apply_sell a s t c).positions ≡ none
  unfolding apply_sell
  apply_sell-gone s t c n found held closed one =
      rw (found, held, closed, min_self (pos (suc n)), exact.sub_self (pos (suc n)))
        (remove_first-gone (is_at t.symbol) t.symbol s.positions (λ q e. e) found
          (find-satisfies (is_at t.symbol) s.positions found) one)

  apply_cover-gone :
      (s : PretestState) (t : PretestTrade) (c : Number) (n : ℕ) {p : PretestPosition}
      → find (is_at t.symbol) s.positions ≡ some p
      → p.quantity ≡ finite (negsuc n)
      → t.quantity ≡ finite (pos (suc n))
      → HasOneEach s.positions
      → find (is_at t.symbol) (apply_cover a s t c).positions ≡ none
  unfolding apply_cover
  apply_cover-gone s t c n {p} found held closed one =
      let short = find-is_short_at t.symbol s.positions found (ground (arith, held)) in
      rw (short, held, closed, min_self (pos (suc n)), positive_lem n, exact.add_opposite n)
        (remove_first-gone (is_short_at t.symbol) t.symbol s.positions (λ q e. rw e refl) found
          (find-satisfies (is_short_at t.symbol) s.positions short) one)

  -- the fill of a proposal, as the loop hands it on
  proposal_filled :
      (r : Result (Option (ℕ × PretestAction))) (symbol : ℕ) (s : PretestState)
      (policy : PretestPolicy) (closes : ℕ → Number) (w : Pretests) (action : PretestAction)
      (q last : Number)
      → r ≡ ok (some (symbol, action))
      → calc_quantity a action symbol (slipped a action last policy) s policy ≡ q
      → num_le q zero_num ≡ false
      → w.external.quote w.calls_made symbol ≡ some last
      → is_usable a symbol last closes ≡ true
      → ((fill_proposed a r s policy closes >>= λ filled. pure [] >>= λ rest. pure (filled ++ rest))
          w).0
        ≡ ok (
            fill_at a symbol action
              (slipped a action last policy)
              q
              (w.external.now (suc w.calls_made))
            ∷ [])
  unfolding ask ◌>>=◌ pure continue on_option
  proposal_filled r symbol s policy closes w action q last is sized some_quantity quoted usable =
      rw is (rw quoted (rw sized (rw (usable, some_quantity) refl)))

  -- what an exit of a position comes to
  abbrev Flattens : ℕ → PretestState → PretestPolicy → (ℕ → Number) → Number → Pretests → Type 0
  Flattens symbol s policy closes c w =
      (ts : List PretestTrade) × ((simulate_fills a (exit_call symbol ∷ []) s policy closes w).0
        ≡ ok ts)
      × (find (is_at symbol) (apply_trades a s ts c).positions ≡ none)

  Flattens-long :
      (symbol : ℕ) (s : PretestState) (policy : PretestPolicy) (closes : ℕ → Number) (c : Number)
      (w : Pretests) (n : ℕ) (last : Number) {p : PretestPosition}
      → HasOneEach s.positions
      → find (is_at symbol) s.positions ≡ some p
      → p.quantity ≡ finite (pos (suc n))
      → w.external.quote w.calls_made symbol ≡ some last
      → is_usable a symbol last closes ≡ true
      → Flattens symbol s policy closes c w
  unfolding simulate_fills map_intent_action calc_quantity apply_trades
  Flattens-long symbol s policy closes c w n last {p} one found held quoted usable = (
    fill_at a symbol close (slipped a close last policy) (finite (pos (suc n)))
          (w.external.now (suc w.calls_made))
        ∷ [],
    proposal_filled (proposal (exit_call symbol) s) symbol s policy closes w close
        (finite (pos (suc n))) last
        (proposed symbol s close (exit_mapped symbol s close found (exit_of_long n p held)))
        (rw found (held_long_lem n p held)) (positive_lem n) quoted usable,
    apply_sell-gone s _ c n found held refl one,
  )

  Flattens-short :
      (symbol : ℕ) (s : PretestState) (policy : PretestPolicy) (closes : ℕ → Number) (c : Number)
      (w : Pretests) (n : ℕ) (last : Number) {p : PretestPosition}
      → HasOneEach s.positions
      → find (is_at symbol) s.positions ≡ some p
      → p.quantity ≡ finite (negsuc n)
      → w.external.quote w.calls_made symbol ≡ some last
      → is_usable a symbol last closes ≡ true
      → Flattens symbol s policy closes c w
  unfolding simulate_fills map_intent_action calc_quantity apply_trades
  Flattens-short symbol s policy closes c w n last {p} one found held quoted usable = (
    fill_at a symbol cover (slipped a cover last policy) (finite (pos (suc n)))
          (w.external.now (suc w.calls_made))
        ∷ [],
    proposal_filled (proposal (exit_call symbol) s) symbol s policy closes w cover
        (finite (pos (suc n))) last
        (proposed symbol s cover (exit_mapped symbol s cover found (exit_of_short n p held)))
        (rw found (held_short_lem n p held)) (positive_lem n) quoted usable,
    apply_cover-gone s _ c n found held refl one,
  )

-- An `exit` closes the position: where the portfolio holds one position of each symbol, one of them of
-- this symbol with a finite quantity other than zero, and the symbol has a quote that may price a fill,
-- the cycle's fill of an `exit` is made, and applied at once it leaves no position of the symbol,
-- whether it was a long or a short, and whatever the slippage, the commission and the cash are.
pub simulate_fills-apply_trades :
    (a : Arithmetic) (symbol : ℕ) (s : PretestState) (policy : PretestPolicy) (closes : ℕ → Number)
    (commission_pct : Number) (w : Pretests) (z : ℤ) (last : Number) {p : PretestPosition}
    → Cancels a
    → HasOneEach s.positions
    → find (is_at symbol) s.positions ≡ some p
    → p.quantity ≡ finite z
    → z ≢ pos 0
    → w.external.quote w.calls_made symbol ≡ some last
    → is_usable a symbol last closes ≡ true
    → (ts : List PretestTrade) × ((simulate_fills a (exit_call symbol ∷ []) s policy closes w).0
        ≡ ok ts)
      × (find (is_at symbol) (apply_trades a s ts commission_pct).positions ≡ none)
simulate_fills-apply_trades a symbol s policy closes c w (pos zero) last exact one found held some_z
      quoted usable =
    elim (some_z refl) [ ]
simulate_fills-apply_trades a symbol s policy closes c w (pos (suc n)) last exact one found held
      some_z quoted usable =
    Flattens-long a exact symbol s policy closes c w n last one found held quoted usable
simulate_fills-apply_trades a symbol s policy closes c w (negsuc n) last exact one found held some_z
      quoted usable =
    Flattens-short a exact symbol s policy closes c w n last one found held quoted usable
