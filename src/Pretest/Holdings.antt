-- ===== src/Pretest/Holdings.antt =====
-- One position of each symbol: what the changes of a list of positions in pretest.service.ts keep.
use open_neotrader.Base.{
  ℕ, ◌≡◌, Bool, false, none, List, [], ◌∷◌, ◌++◌, ◌==◌, find, All, arith, Bool-cases, inl, inr,
}
use open_neotrader.Pretest.State.{PretestPosition}
use open_neotrader.Pretest.Book.{update_first, remove_first, is_at}

-- No position of the list is for the symbol
abbrev pub IsAbsent : ℕ → List PretestPosition → Type 0
IsAbsent symbol ps = All (λ p. (p.symbol == symbol) ≡ false) ps

abbrev pub HasOneEach : List PretestPosition → Type 0
HasOneEach [] = Unit
HasOneEach (p ∷ ps) = IsAbsent p.symbol ps × HasOneEach ps

-- a change that leaves the symbol
abbrev KeepsSymbol : (PretestPosition → PretestPosition) → Type 0
KeepsSymbol f = (p : PretestPosition) → (f p).symbol ≡ p.symbol

module _ (matches : PretestPosition → Bool) where
  update_first-IsAbsent :
      (symbol : ℕ) (f : PretestPosition → PretestPosition) (ps : List PretestPosition)
      → KeepsSymbol f
      → IsAbsent symbol ps
      → IsAbsent symbol (update_first matches f ps)
  update_first-IsAbsent symbol f [] k h = tt
  update_first-IsAbsent symbol f (p ∷ ps) k h = elim (Bool-cases (matches p)) [
    | inl e ↦ rw (e, k p) h
    | inr e ↦ rw e (h.0, update_first-IsAbsent symbol f ps k h.1)
  ]

  pub update_first-HasOneEach :
      (f : PretestPosition → PretestPosition) (ps : List PretestPosition)
      → KeepsSymbol f
      → HasOneEach ps
      → HasOneEach (update_first matches f ps)
  update_first-HasOneEach f [] k h = tt
  update_first-HasOneEach f (p ∷ ps) k h = elim (Bool-cases (matches p)) [
    | inl e ↦ rw (e, k p) h
    | inr e ↦ rw e (update_first-IsAbsent p.symbol f ps k h.0, update_first-HasOneEach f ps k h.1)
  ]

  remove_first-IsAbsent :
      (symbol : ℕ) (ps : List PretestPosition)
      → IsAbsent symbol ps
      → IsAbsent symbol (remove_first matches ps)
  remove_first-IsAbsent symbol [] h = tt
  remove_first-IsAbsent symbol (p ∷ ps) h = elim (Bool-cases (matches p)) [
    | inl e ↦ rw e h.1
    | inr e ↦ rw e (h.0, remove_first-IsAbsent symbol ps h.1)
  ]

  pub remove_first-HasOneEach :
      (ps : List PretestPosition) → HasOneEach ps → HasOneEach (remove_first matches ps)
  remove_first-HasOneEach [] h = tt
  remove_first-HasOneEach (p ∷ ps) h = elim (Bool-cases (matches p)) [
    | inl e ↦ rw e h.1
    | inr e ↦ rw e (remove_first-IsAbsent p.symbol ps h.0, remove_first-HasOneEach ps h.1)
  ]

append-IsAbsent :
    (symbol : ℕ) (q : PretestPosition) (ps : List PretestPosition)
    → (q.symbol == symbol) ≡ false
    → IsAbsent symbol ps
    → IsAbsent symbol (ps ++ q ∷ [])
append-IsAbsent symbol q [] n h = (n, tt)
append-IsAbsent symbol q (p ∷ ps) n h = (h.0, append-IsAbsent symbol q ps n h.1)

pub append-HasOneEach :
    (q : PretestPosition) (ps : List PretestPosition)
    → find (is_at q.symbol) ps ≡ none
    → HasOneEach ps
    → HasOneEach (ps ++ q ∷ [])
append-HasOneEach q [] n h = (tt, tt)
append-HasOneEach q (p ∷ ps) n h = elim (Bool-cases (p.symbol == q.symbol)) [
  | inl e ↦ ground (arith, rw e at n)
  | inr e ↦ (
    append-IsAbsent p.symbol q ps (ground (arith, e)) h.0,
    append-HasOneEach q ps (rw e at n) h.1,
  )
]
