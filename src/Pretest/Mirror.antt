-- ===== src/Pretest/Mirror.antt =====
-- The risk policies of the simulated portfolios and of the live account, which two services read from
-- the same keys.
use open_neotrader.Base.{◌≡◌, refl}
use open_neotrader.Exec.{Result, ok, err}
use open_neotrader.Exec.Leads.{Yields}
use open_neotrader.Execution.Account.{RiskPolicy}
use open_neotrader.Store.World.{World}
use open_neotrader.TradeIntent.Policy.{
  ExecutionPolicy, policy_of, read_execution_policy, risk_policy_of,
}
use open_neotrader.TradeIntent.Safety.{stored_policy, Gives-policy}
use open_neotrader.Pretest.State.{Pretests}
use open_neotrader.Pretest.Floor.{risk_of, read_risk_policy}
use open_neotrader.Pretest.Ceiling.{stored_risk, Gives-risk}

-- the same readers, roundings and texts
abbrev pub SharesTable : Pretests → World → Type 0
SharesTable v w =
    (w.external.readers ≡ v.external.readers)
    × (w.external.arithmetic ≡ v.external.arithmetic)
    × (w.db.kv ≡ v.kv)

stored_same :
    (v : Pretests) (w : World)
    → SharesTable v w
    → stored_risk v ≡ risk_policy_of (stored_policy w.external w.db.kv)
unfolding risk_of policy_of
stored_same v w (readers, arithmetic, kv) = rw (readers, arithmetic, kv) refl

agree :
    (p : Result RiskPolicy) (q : Result ExecutionPolicy) (u : RiskPolicy) (t : ExecutionPolicy)
    → u ≡ risk_policy_of t
    → Yields (λ x. x ≡ u) p
    → Yields (λ y. y ≡ t) q
    → Yields (λ x. Yields (λ y. x ≡ risk_policy_of y) q) p
agree (ok x) (ok y) u t same is_x is_y = rw (is_x, is_y) same
agree (ok x) (err e) u t same is_x is_y = tt
agree (err e) q u t same is_x is_y = tt

-- A simulated portfolio is never held to a looser policy than the live account: where the two services
-- share the key-value table and both readings return, the risk policy of the pretest is the one that
-- the live account hands to its own entry gate.
pub read_risk_policy-read_execution_policy :
    (v : Pretests) (w : World)
    → SharesTable v w
    → Yields
        (λ pretest. Yields (λ live. pretest ≡ risk_policy_of live) (read_execution_policy w).0)
        (read_risk_policy v).0
read_risk_policy-read_execution_policy v w shares =
    agree (read_risk_policy v).0 (read_execution_policy w).0 _ _ (stored_same v w shares)
      ((Gives-risk v).value v (refl, refl, refl, refl)) (Gives-policy.value w (refl, refl, refl))
