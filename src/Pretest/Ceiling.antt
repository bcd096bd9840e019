-- ===== src/Pretest/Ceiling.antt =====
-- What `_applyKernelRiskFloor` of pretest.service.ts lets through.
use open_neotrader.Base.{
  ℕ, ◌≡◌, refl, sym, ◌∙◌, Bool, true, false, not, Option, none, some, List, [], ◌∷◌, ◌+◌, length,
  select, if◌then◌else◌, Bool-cases, inl, inr, is_some, arith, subst,
}
use open_neotrader.Number.{num_of, num_le}
use open_neotrader.Exec.{Result, ok, err, gets, quietly, ◌>>=◌}
use open_neotrader.Exec.Leads.{Gives, Gives-bind, Gives-pure, Yields}
use open_neotrader.Exec.Returns.{
  Returns, Returns-pure, Returns-raise, Returns-bind, Returns-given, Returns-weaken, Yields-bind,
}
use open_neotrader.Common.Kv.{Kv, kv_get}
use open_neotrader.Store.Rows.{Refusal}
use open_neotrader.Execution.Account.{RiskPolicy}
use open_neotrader.Execution.Gate.{evaluate_entry_gate}
use open_neotrader.Pretest.State.{PretestPosition, PretestState, Pretests, ask, store_call}
use open_neotrader.Pretest.Fill.{ToolCall}
use open_neotrader.Pretest.Reads.{Seen, Gives-gets, read_then}
use open_neotrader.Pretest.Floor.{
  RawRisk, risk_of, read_risk_policy, account_of, merged, entry_of, FloorStep, is_held, reject,
  reserve, after_gate, floor_entry, floor_by, kept_if, floor_calls, apply_kernel_risk_floor,
}

-- the texts of the risk policy's keys in a table
abbrev pub raw_risk : Kv → RawRisk
raw_risk kv = record {
  max_position_pct = kv_get "execution.max_position_pct" kv;
  max_open_positions = kv_get "execution.max_open_positions" kv;
  max_drawdown_halt_pct = kv_get "execution.max_drawdown_halt_pct" kv;
  max_short_notional_pct = kv_get "execution.max_short_notional_pct" kv;
  loss_circuit_breaker_enabled = kv_get "execution.loss_circuit_breaker_enabled" kv;
  max_daily_loss_pct = kv_get "execution.max_daily_loss_pct" kv;
  max_weekly_loss_pct = kv_get "execution.max_weekly_loss_pct" kv;
}

-- the risk policy that the table holds
abbrev pub stored_risk : Pretests → RiskPolicy
stored_risk v = risk_of v.external.readers v.external.arithmetic (raw_risk v.kv)

pub Gives-risk : (v : Pretests) → Gives (Seen v) (λ p. p ≡ stored_risk v) read_risk_policy
unfolding read_risk_policy
Gives-risk v =
    Gives-bind (gets (λ w. w.external)) _ (Gives-gets v _ (λ e. e ≡ v.external) (λ w h. h.0))
      (λ e is. rw is (
        read_then v _ _ (
          read_then v _ _ (
            read_then v _ _ (
              read_then v _ _
                (read_then v _ _ (read_then v _ _ (read_then v _ _ (Gives-pure _ refl)))))))))

abbrev symbol_of : Result (Option ℕ) → Option ℕ
symbol_of (ok o) = o
symbol_of (err e) = none

-- the call is no long and no short of a symbol
abbrev pub is_no_entry : ToolCall → Bool
is_no_entry tc = not (is_some (symbol_of (entry_of tc)))

abbrev add_new : List PretestPosition → Option ℕ → List ℕ → List ℕ
add_new ps none seen = seen
add_new ps (some symbol) seen = if is_held symbol ps seen then seen else symbol ∷ seen

-- the symbols that the calls enter and that no position is of, each once, the last one first
abbrev pub new_symbols : List PretestPosition → List ToolCall → List ℕ → List ℕ
new_symbols ps [] seen = seen
new_symbols ps (tc ∷ tcs) seen = new_symbols ps tcs (add_new ps (symbol_of (entry_of tc)) seen)

-- The positions and the symbols before the last one do not reach the ceiling.
abbrev pub IsWithin : RiskPolicy → List PretestPosition → List ℕ → Type 0
IsWithin policy ps [] = Unit
IsWithin policy ps (_ ∷ earlier) =
    num_le policy.max_open_positions (num_of (length ps + length earlier)) ≡ false

-- what a round comes to
pub record IsRound (policy : RiskPolicy) (entry : Option ℕ) (ps : List PretestPosition)
    (reserved : List ℕ) (step : FloorStep) : Type 0 where
  pub same : step.state.positions ≡ ps
  pub adds : step.reserved ≡ (if step.kept then add_new ps entry reserved else reserved)
  pub within : IsWithin policy ps reserved → IsWithin policy ps step.reserved
  pub keeps : is_some entry ≡ false → step.kept ≡ true

module _ (policy : RiskPolicy) where
  Returns-reject :
      (symbol : ℕ) (s : PretestState) (reserved : List ℕ)
      → Returns (IsRound policy (some symbol) s.positions reserved) (reject s reserved)
  unfolding reject
  Returns-reject symbol s reserved = Returns-bind (quietly store_call) _ (λ _.
      Returns-pure _
        (record { same = refl; adds = refl; within = λ h. h; keeps = λ h. ground arith }))

  Returns-reserve :
      (symbol : ℕ) (s : PretestState) (reserved : List ℕ)
      → Returns
          (IsRound policy (some symbol) s.positions reserved)
          (reserve policy symbol s reserved)
  unfolding reserve
  Returns-reserve symbol s reserved = elim (Bool-cases (is_held symbol s.positions reserved)) [
    | inl held ↦ rw held (
        Returns-pure _
          (record { same = refl; adds = rw held refl; within = λ h. h; keeps = λ h. refl }))
    | inr fresh ↦
        rw fresh
          (elim (Bool-cases
            (num_le policy.max_open_positions (num_of (length s.positions + length reserved)))) [
              | inl full ↦ rw full (Returns-reject symbol s reserved)
              | inr below ↦ rw below (
                  Returns-pure _ (record {
                    same = refl;
                    adds = rw fresh refl;
                    within = λ h. below;
                    keeps = λ h. refl;
                  }))
            ])
  ]

  Returns-after_gate :
      (refusal : Option Refusal) (symbol : ℕ) (s : PretestState) (reserved : List ℕ)
      → Returns
          (IsRound policy (some symbol) s.positions reserved)
          (after_gate refusal policy symbol s reserved)
  Returns-after_gate none symbol s reserved = Returns-reserve symbol s reserved
  Returns-after_gate (some r) symbol s reserved = Returns-reject symbol s reserved

  Returns-floor_by :
      (entry : Result (Option ℕ)) (s : PretestState) (reserved : List ℕ)
      → Returns
          (IsRound policy (symbol_of entry) s.positions reserved)
          (floor_by entry policy s reserved)
  unfolding floor_entry
  Returns-floor_by (err e) s reserved = Returns-raise e
  Returns-floor_by (ok none) s reserved =
      Returns-pure _ (record { same = refl; adds = refl; within = λ h. h; keeps = λ h. refl })
  Returns-floor_by (ok (some symbol)) s reserved =
      Returns-bind (gets (λ w. w.external.arithmetic)) _ (λ a.
        Returns-bind (ask (λ e n. e.market n)) _ (λ m.
          let g = evaluate_entry_gate a m (account_of s) policy in
          Returns-after_gate g.refusal symbol (merged s g.state) reserved))

  -- what the loop comes to
  abbrev IsFloored :
      List ToolCall → List PretestPosition → List ℕ → List ToolCall × PretestState → Type 0
  IsFloored tcs ps reserved (allowed, final) =
      (IsWithin policy ps reserved → IsWithin policy ps (new_symbols ps allowed reserved))
      × (select is_no_entry allowed ≡ select is_no_entry tcs)
      × (final.positions ≡ ps)

  IsFloored-kept_if :
      (tc : ToolCall) (tcs allowed : List ToolCall) (ps : List PretestPosition) (reserved : List ℕ)
      (step : FloorStep) (final : PretestState)
      → IsRound policy (symbol_of (entry_of tc)) ps reserved step
      → IsFloored tcs ps step.reserved (allowed, final)
      → IsFloored (tc ∷ tcs) ps reserved (kept_if step.kept tc allowed, final)
  IsFloored-kept_if tc tcs allowed ps reserved step final round (within, exits, same) =
      let Grows = λ (r : List ℕ). IsWithin policy ps (new_symbols ps allowed r) in
      elim (Bool-cases step.kept) [
        | inl kept ↦ rw kept (
          λ h. subst Grows (round.adds ∙ rw kept refl) (within (round.within h)),
          rw exits refl,
          same,
        )
        | inr dropped ↦ rw dropped (
          λ h. subst Grows (round.adds ∙ rw dropped refl) (within (round.within h)),
          elim (Bool-cases (is_some (symbol_of (entry_of tc)))) [
            | inl entry ↦ rw entry exits
            | inr other ↦ ground (arith, dropped, round.keeps other)
          ],
          same,
        )
      ]

  Returns-floor_calls :
      (tcs : List ToolCall) (s : PretestState) (reserved : List ℕ)
      → Returns (IsFloored tcs s.positions reserved) (floor_calls policy tcs s reserved)
  unfolding floor_calls
  Returns-floor_calls [] s reserved = Returns-pure _ (λ h. h, refl, refl)
  Returns-floor_calls (tc ∷ tcs) s reserved =
      Returns-given _ _ (Returns-floor_by (entry_of tc) s reserved) (λ step round.
        Returns-given _ _ (Returns-floor_calls tcs step.state step.reserved) (λ rest floored.
          Returns-pure _ (
            IsFloored-kept_if tc tcs rest.0 s.positions reserved step rest.1 round
              (rw round.same at floored))))

-- A cycle's entries stay under the ceiling, and no exit is held back: wherever the floor returns, the
-- symbols that the calls it lets through newly enter, together with the open positions, had not reached
-- the stored ceiling before the last of them; the calls that are no entries are all passed on, in their
-- order; and the positions are as they were.
pub apply_kernel_risk_floor-IsWithin :
    (tcs : List ToolCall) (state : PretestState) (w : Pretests)
    → Yields
        (λ result.
          IsWithin (stored_risk w) state.positions (new_symbols state.positions result.0 [])
          × (select is_no_entry result.0 ≡ select is_no_entry tcs)
          × (result.1.positions ≡ state.positions))
        (apply_kernel_risk_floor tcs state w).0
unfolding apply_kernel_risk_floor ◌>>=◌
apply_kernel_risk_floor-IsWithin tcs state w =
    Yields-bind (read_risk_policy w).0 _ (read_risk_policy w).1
      ((Gives-risk w).value w (refl, refl, refl, refl))
      (λ policy is. rw (sym is) (
        Returns-weaken _ (λ r (within, exits, same). (within tt, exits, same))
          (Returns-floor_calls policy tcs state [])))
