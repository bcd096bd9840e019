-- ===== src/Pretest/Cycles.antt =====
-- What the cycles of pretest.service.ts keep of every stored portfolio.
use open_neotrader.Base.{
  ℕ, ◌≡◌, Option, some, List, [], ◌∷◌, ◌==◌, find, update_where, All, Bool-cases, inl, inr, refl,
  none, map, is_some, some_of, some_eq, subst, arith,
}
use open_neotrader.Exec.{gets}
use open_neotrader.Exec.Keeps.{
  Keeps, Keeps-if, Keeps-raise, Keeps-bind, Keeps-pure, Keeps-gets, Keeps-modify, Keeps-quietly,
  Keeps-attempt,
}
use open_neotrader.Exec.Leads.{
  Gives, Gives-Keeps, Gives-if, Gives-bind, Gives-on_option, Gives-pure, Gives-raise,
}
use open_neotrader.Exec.Returns.{Returns, Returns-bind, Returns-given}
use open_neotrader.Execution.Account.{Arithmetic}
use open_neotrader.Pretest.State.{
  PretestTrade, PretestPosition, PretestState, PretestPortfolio, Pretests, Trial, stored_position,
  stored_trade, stored_state, store_call,
}
use open_neotrader.Pretest.Floor.{apply_kernel_risk_floor}
use open_neotrader.Pretest.Promote.{find_one}
use open_neotrader.Number.{Number}
use open_neotrader.Pretest.Holdings.{IsAbsent, HasOneEach}
use open_neotrader.Pretest.Counting.{IsBook, closed_count, apply_trades-IsBook}
use open_neotrader.Pretest.Sound.{Returns-metrics, Returns-cycle_trades, Returns-floor_calls}
use open_neotrader.Pretest.Untouched.{
  AreBooks, Keeps-ask, Keeps-store_call, Keeps-metrics, Keeps-floor, Keeps-cycle_trades,
}
use open_neotrader.Pretest.Cycle.{
  CycleTurn, effective_policy, cycle_state, advanced, store_state, finish_cycle, run_cycle,
  run_each, run_all_active,
}

module _ (a : Arithmetic) (turn : CycleTurn) (s : PretestState) where
  Returns-cycle_state : IsBook s → Returns IsBook (cycle_state a turn s)
  unfolding cycle_state apply_kernel_risk_floor
  Returns-cycle_state h =
      let policy = effective_policy a turn.exposure_scalar turn.policy in
      Returns-given {F = λ result. IsBook result.1} _ _
        (Returns-bind _ _ (λ risk. Returns-floor_calls risk turn.tool_calls s [] h))
        (λ gated book.
          Returns-given _ _ (Returns-cycle_trades a turn policy gated.0 gated.1) (λ trades fresh.
            Returns-metrics a turn.benchmark_symbol _ policy turn.reference_closes
              (apply_trades-IsBook a gated.1 trades policy.commission_pct fresh book)))

  Keeps-cycle_state : Keeps AreBooks (cycle_state a turn s)
  unfolding cycle_state
  Keeps-cycle_state =
      let policy = effective_policy a turn.exposure_scalar turn.policy in
      Keeps-bind _ _ (Keeps-floor turn.tool_calls s) (λ gated.
        Keeps-bind _ _ (Keeps-cycle_trades a turn policy gated.0 gated.1)
          (λ trades. Keeps-metrics a policy turn.reference_closes turn.benchmark_symbol _))

stored-IsAbsent :
    (symbol : ℕ) (ps : List PretestPosition)
    → IsAbsent symbol ps
    → IsAbsent symbol (map stored_position ps)
stored-IsAbsent symbol [] h = tt
stored-IsAbsent symbol (p ∷ ps) h = (h.0, stored-IsAbsent symbol ps h.1)

stored-HasOneEach :
    (ps : List PretestPosition) → HasOneEach ps → HasOneEach (map stored_position ps)
stored-HasOneEach [] h = tt
stored-HasOneEach (p ∷ ps) h = (stored-IsAbsent p.symbol ps h.0, stored-HasOneEach ps h.1)

stored_trade-closes :
    (t : PretestTrade) (v : Option Number)
    → t.pnl ≡ v
    → is_some (stored_trade t).pnl ≡ is_some t.pnl
stored_trade-closes t none is = rw is refl
stored_trade-closes t (some v) is = rw is refl

closed_count-stored :
    (ts : List PretestTrade) → closed_count (map stored_trade ts) ≡ closed_count ts
closed_count-stored [] = refl
closed_count-stored (t ∷ ts) =
    let rest = closed_count-stored ts in
    let same = stored_trade-closes t t.pnl refl in
    elim (Bool-cases (is_some t.pnl)) [
      | inl e ↦ rw (same, e) (omega (arith, rest))
      | inr e ↦ rw (same, e) rest
    ]

stored_state-IsBook : (s : PretestState) → IsBook s → IsBook (stored_state s)
stored_state-IsBook s h = (stored-HasOneEach s.positions h.0, rw (closed_count-stored s.trades) h.1)

AreBooks-update :
    (id : ℕ) (s : PretestState) (now : ℕ) (ps : List PretestPortfolio)
    → IsBook s
    → All (λ p. IsBook p.state) ps
    → All (λ p. IsBook p.state) (update_where (λ p. p.id == id) (advanced s now) ps)
AreBooks-update id s now [] book h = tt
AreBooks-update id s now (p ∷ ps) book h = elim (Bool-cases (p.id == id)) [
  | inl e ↦ rw e (stored_state-IsBook s book, AreBooks-update id s now ps book h.1)
  | inr e ↦ rw e (h.0, AreBooks-update id s now ps book h.1)
]

AreBooks-find :
    (id : ℕ) (ps : List PretestPortfolio) {pf : PretestPortfolio}
    → find (λ p. p.id == id) ps ≡ some pf
    → All (λ p. IsBook p.state) ps
    → IsBook pf.state
AreBooks-find id [] found h = ground (arith, found)
AreBooks-find id (p ∷ ps) found h = elim (Bool-cases (p.id == id)) [
  | inl e ↦ subst (λ q. IsBook q.state) (some_eq (rw e at found)) h.0
  | inr e ↦ AreBooks-find id ps (rw e at found) h.1
]

Keeps-store_state : (id : ℕ) (s : PretestState) → IsBook s → Keeps AreBooks (store_state id s)
unfolding store_state
Keeps-store_state id s book = Keeps-bind _ _ (Keeps-ask _) (λ now.
    Keeps-bind _ _ Keeps-store_call (λ _. Keeps-bind _ _ (Keeps-gets _) (λ rows.
      Keeps-bind _ _
        (Keeps-if (some_of (λ p. p.id == id) rows) _ _
          (Keeps-modify _ (λ w h. AreBooks-update id s now w.portfolios book h)) (Keeps-raise _))
        (λ _. Keeps-quietly _ Keeps-store_call))))

-- what an action keeps and what it returns
gives :
    {R : Type 0} {E : R → Type 0} (run : Trial R)
    → Keeps AreBooks run
    → Returns E run
    → Gives AreBooks E run
gives run k r = record { at = k.at; value = λ w h. r.value w }

Gives-find_one : (id : ℕ) → Gives AreBooks (λ pf. IsBook pf.state) (find_one id)
unfolding find_one gets
Gives-find_one id =
    Gives-bind store_call _ (Gives-Keeps {E = λ _. Unit} _ Keeps-store_call (λ _. tt)) (λ _ _.
      Gives-bind {E = λ row. (pf : PretestPortfolio) → row ≡ some pf → IsBook pf.state}
        (gets (λ w. find (λ p. p.id == id) w.portfolios)) _
        (record {
          at = λ w h. h;
          value = λ w h. (λ pf found. AreBooks-find id w.portfolios found h);
        })
        (λ row sound.
          Gives-on_option row _ _ (λ pf is. Gives-pure pf (sound pf is)) (Gives-raise _)))

Gives-finish_cycle :
    (pf : PretestPortfolio) (turn : CycleTurn)
    → IsBook pf.state
    → Gives AreBooks (λ _. Unit) (finish_cycle pf turn)
unfolding finish_cycle
Gives-finish_cycle pf turn book =
    Gives-bind (gets (λ w. w.external.arithmetic)) _
      (Gives-Keeps {E = λ _. Unit} _ (Keeps-gets _) (λ _. tt))
      (λ a _.
        Gives-bind (cycle_state a turn pf.state) _
          (gives _ (Keeps-cycle_state a turn pf.state) (Returns-cycle_state a turn pf.state book))
          (λ s sound. Gives-Keeps _ (Keeps-store_state pf.id s sound) (λ _. tt)))

Keeps-run_cycle : (turn : Option CycleTurn) (id : ℕ) → Keeps AreBooks (run_cycle turn id)
unfolding run_cycle
Keeps-run_cycle turn id = record {
  at =
      (Gives-bind (find_one id) _ (Gives-find_one id) (λ pf book.
        Gives-if {E = λ _. Unit} pf.is_active _ _
          (λ _. Gives-on_option turn _ _ (λ t _. Gives-finish_cycle pf t book) (Gives-raise _))
          (λ _. Gives-raise _))).at;
}

Keeps-run_each :
    (turns : ℕ → Option CycleTurn) (ps : List PretestPortfolio) → Keeps AreBooks (run_each turns ps)
unfolding run_each
Keeps-run_each turns [] = Keeps-pure []
Keeps-run_each turns (p ∷ ps) =
    Keeps-bind _ _ (Keeps-attempt _ (Keeps-run_cycle (turns p.id) p.id))
      (λ outcome. Keeps-bind _ _ (Keeps-run_each turns ps) (λ rest. Keeps-pure _))

-- Every stored portfolio stays sound in a round of cycles: where each holds one position of each symbol
-- and its wins and losses add up to its trades that closed a quantity, each does so after `runAllActive`,
-- whatever the agents and the strategies want, whatever is quoted, and whichever calls fail.
pub run_all_active-AreBooks :
    (turns : ℕ → Option CycleTurn) (w : Pretests) → AreBooks w → AreBooks (run_all_active turns w).1
unfolding run_all_active
run_all_active-AreBooks turns w h =
    (Keeps-bind _ _ Keeps-store_call
        (λ _. Keeps-bind _ _ (Keeps-gets _) (λ active. Keeps-run_each turns active))).at
      w h
