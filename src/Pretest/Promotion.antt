-- ===== src/Pretest/Promotion.antt =====
-- What `promote` of pretest.service.ts may do to the plugins.
use open_neotrader.Base.{
  ℕ, ◌≡◌, ◌⊎◌, inl, inr, refl, sym, ◌∙◌, Bool, true, false, not, ◌&&◌, some, List, [], ◌∷◌, find,
  ◌==◌, arith,
}
use open_neotrader.Exec.{Result, ok, err, pure, gets, attempt, ◌>>◌, on_result, record_not_found}
use open_neotrader.Exec.Leads.{
  Yields, Gives, Leads, Gives-pure, Gives-raise, Gives-attempt, Gives-bind, Gives-on_option,
  Leads-given, Leads-if,
}
use open_neotrader.Common.Kv.{Kv, kv_get, kv_bool}
use open_neotrader.Pretest.State.{PretestPortfolio, Pretests, Trial, store_call, read_kv}
use open_neotrader.Pretest.Reads.{Seen, Gives-store_call, Gives-gets, read_then, Gives-read_kv}
use open_neotrader.Pretest.Gate.{
  RawThresholds, GateReason, thresholds_of, read_gate_thresholds, evaluate_gate,
}
use open_neotrader.Pretest.Reputation.{significance}
use open_neotrader.Pretest.Promote.{
  find_one, GateResult, is_ready, gate, confirm_key, audit, apply_promotion, promote_ready,
  promote_gated, promote, needs_confirmation, gate_error, gate_not_ready,
}

-- the texts of the gate's keys
abbrev pub raw_thresholds : Kv → RawThresholds
raw_thresholds kv = record {
  min_trades = kv_get "pretest.gate.min_trades" kv;
  min_sharpe = kv_get "pretest.gate.min_sharpe" kv;
  max_dd_pct = kv_get "pretest.gate.max_dd_pct" kv;
  min_loss_trades = kv_get "pretest.gate.min_loss_trades" kv;
  min_alpha = kv_get "pretest.gate.min_alpha" kv;
}

-- The portfolio passes the gate, under the thresholds that the key-value table holds.
abbrev pub PassesGate : Pretests → PretestPortfolio → Type 0
PassesGate v pf =
    evaluate_gate (significance v.external.arithmetic v.external.sqrt pf)
      (thresholds_of v.external.readers (raw_thresholds v.kv))
    ≡ []

-- A human confirmed, or the table says that nobody has to.
abbrev pub IsConfirmed : Pretests → Bool → Type 0
IsConfirmed v confirm =
    (confirm ≡ true) ⊎ (kv_bool v.external.readers (kv_get confirm_key v.kv) true ≡ false)

abbrev pub IsFound : Pretests → ℕ → PretestPortfolio → Type 0
IsFound v id pf = find (λ p. p.id == id) v.portfolios ≡ some pf

ready_nil : (reasons : List GateReason) → is_ready reasons ≡ true → reasons ≡ []
ready_nil [] h = refl
ready_nil (r ∷ rs) h = ground arith

confirmed :
    (required confirm : Bool)
    → (required && not confirm) ≡ false
    → (confirm ≡ true) ⊎ (required ≡ false)
confirmed required true h = inl refl
confirmed true false h = ground arith
confirmed false false h = inr refl

module _ (v : Pretests) where
  Gives-find_one : (id : ℕ) → Gives (Seen v) (IsFound v id) (find_one id)
  unfolding find_one
  Gives-find_one id = Gives-bind store_call _ (Gives-store_call v) (λ _ _.
      Gives-bind (gets (λ w. find (λ p. p.id == id) w.portfolios)) _
        (Gives-gets v _ (λ row. row ≡ find (λ p. p.id == id) v.portfolios) (λ w h. rw h.1 refl))
        (λ row is.
          Gives-on_option row _ _ (λ pf has. Gives-pure pf (sym is ∙ has))
            (Gives-raise record_not_found)))

  Gives-thresholds :
      Gives
        (Seen v)
        (λ t. t ≡ thresholds_of v.external.readers (raw_thresholds v.kv))
        read_gate_thresholds
  unfolding read_gate_thresholds
  Gives-thresholds =
      Gives-bind (gets (λ w. w.external.readers)) _
        (Gives-gets v _ (λ r. r ≡ v.external.readers) (λ w h. rw h.0 refl))
        (λ r is. rw is (
          read_then v _ _ (
            read_then v _ _
              (read_then v _ _ (read_then v _ _ (read_then v _ _ (Gives-pure _ refl)))))))

  Gives-gate :
      (id : ℕ)
      → Gives
          (Seen v)
          (λ g.
            (pf : PretestPortfolio) × IsFound v id pf
            × (is_ready g.reasons ≡ true → PassesGate v pf))
          (gate id)
  unfolding gate
  Gives-gate id = Gives-bind (find_one id) _ (Gives-find_one id) (λ pf has.
      Gives-bind (gets (λ w. w.external)) _ (Gives-gets v _ (λ e. e ≡ v.external) (λ w h. h.0))
        (λ e is.
          Gives-bind read_gate_thresholds _ Gives-thresholds
            (λ t are. Gives-pure _ (pf, has, λ r. ready_nil _ (rw (is, are) at r)))))

  -- what a change of the plugins takes
  abbrev pub IsAllowed : ℕ → Bool → Type 0
  IsAllowed id confirm =
      (pf : PretestPortfolio) × IsFound v id pf × PassesGate v pf × IsConfirmed v confirm

  -- the plugins were left alone, or all that it takes was there
  abbrev Guarded : ℕ → Bool → Pretests → Type 0
  Guarded id confirm w = (w.plugin_calls ≡ v.plugin_calls) ⊎ IsAllowed id confirm

  module _ (id : ℕ) (confirm : Bool) where
    allowed :
        {R : Type 0} (run : Trial R)
        → IsAllowed id confirm
        → Leads (Seen v) (Guarded id confirm) run
    allowed run grant = record { at = λ w h. inr grant }

    untouched : (w : Pretests) → Seen v w → Guarded id confirm w
    untouched w h = inl h.3

    stays :
        {R : Type 0} {E : R → Type 0} (run : Trial R)
        → Gives (Seen v) E run
        → Leads (Seen v) (Guarded id confirm) run
    stays run g = record { at = λ w h. untouched (run w).1 (g.at w h) }

    Leads-promote_ready :
        (pf found : PretestPortfolio)
        → IsFound v id found
        → PassesGate v found
        → Leads (Seen v) (Guarded id confirm) (promote_ready pf confirm)
    unfolding promote_ready
    Leads-promote_ready pf found has passes =
        Leads-given (read_kv confirm_key) _ untouched (Gives-read_kv v confirm_key) (λ raw is.
          Leads-given (gets (λ w. w.external.readers)) _ untouched
            (Gives-gets v _ (λ r. r ≡ v.external.readers) (λ w h. rw h.0 refl))
            (λ r reads.
              Leads-if (kv_bool r raw true && not confirm) (pure (needs_confirmation pf.plugin_ids))
                (apply_promotion pf) (λ e. stays _ (Gives-pure {E = λ _. Unit} _ tt))
                (λ e. allowed _ (found, has, passes, confirmed _ confirm (rw (is, reads) at e)))))

    -- what is known of an attempt at the gate
    abbrev IsKnown : Result GateResult → Type 0
    IsKnown = Yields (λ g.
        (pf : PretestPortfolio) × IsFound v id pf × (is_ready g.reasons ≡ true → PassesGate v pf))

    audited :
        {R : Type 0} (result : R) → Leads (Seen v) (Guarded id confirm) (store_call >> pure result)
    audited result =
        stays _ (
          Gives-bind store_call _ (Gives-store_call v)
            (λ _ _. Gives-pure {E = λ _. Unit} result tt))

    Leads-outcome :
        (pf : PretestPortfolio) (g : Result GateResult)
        → IsKnown g
        → Leads
            (Seen v)
            (Guarded id confirm)
            (on_result g (promote_gated pf confirm) (λ _. audit >> pure gate_error))
    unfolding on_result promote_gated audit
    Leads-outcome pf (err e) known = audited gate_error
    Leads-outcome pf (ok g) (found, has, passes) =
        Leads-if (is_ready g.reasons) _ _ (λ ready. Leads-promote_ready pf found has (passes ready))
          (λ _. audited (gate_not_ready g.reasons))

    Leads-promote : Leads (Seen v) (Guarded id confirm) (promote id confirm)
    unfolding promote
    Leads-promote = Leads-given (find_one id) _ untouched (Gives-find_one id) (λ pf has.
        Leads-given (attempt (gate id)) _ untouched (Gives-attempt _ (Gives-gate id))
          (λ g known. Leads-outcome pf g known))

-- No promotion without the gate: whatever is answered, `promote` leaves the plugins alone, or the
-- portfolio is in the table, passes the gate under the thresholds that the key-value table holds, and
-- the promotion is confirmed, by the caller or by a table that says that nobody has to.
pub promote-guarded :
    (id : ℕ) (confirm : Bool) (w : Pretests)
    → ((promote id confirm w).1.plugin_calls ≡ w.plugin_calls) ⊎ IsAllowed w id confirm
promote-guarded id confirm w = (Leads-promote w id confirm).at w (refl, refl, refl, refl)
