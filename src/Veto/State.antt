-- ===== src/Veto/State.antt =====
-- The ledger `veto_decisions` that veto-analyzer.service.ts reads and completes, its field
-- `backfillRunning`, and what the outside answers by the number of the call. Symbols and the ids of rows
-- are numbers; the columns that no code here reads are left out.
use open_neotrader.Base.{
  ℕ, suc, String, Bool, Option, List, if◌then◌else◌, ◌==◌, select, some_of, update_where,
}
use open_neotrader.Number.{Number}
use open_neotrader.Exec.{
  Exec, database, record_not_found, ok, err, raise, gets, modify, ◌>>=◌, ◌>>◌,
}
use open_neotrader.Execution.Account.{Arithmetic}
use open_neotrader.Common.Kv.{Kv, Readers, kv_get}

-- the text `cf_method`, by the code that writes it: `buildCfMethod` or `_markUnresolvable`
pub data CfMethod : Type 0 where
  unsupported_action insufficient_data invalid_ref_price : CfMethod
  fixed_horizon : ℕ → String → Number → CfMethod

-- `VetoDecisionRow`; times are counted in milliseconds
pub record VetoDecisionRow : Type 0 where
  pub id : ℕ
  pub ts : ℕ
  pub symbol : ℕ
  pub source_plugin : String
  pub verdict : String
  pub proposed_action : String
  pub proposed_qty : Number
  pub approved_qty : Option Number
  pub ref_price : Option Number
  pub discipline : Option String
  pub cf_pnl : Option Number
  pub cf_method : Option CfMethod
  pub cf_evaluated_at : Option ℕ

-- `OhlcvBar`
pub record OhlcvBar : Type 0 where
  pub ts : String
  pub close : Number

pub record VetoExternal : Type 0 where
  pub store_works : ℕ → Bool
  pub now : ℕ → ℕ
  -- `getOhlcv` of a symbol, a timeframe and a number of bars; none where it throws
  pub ohlcv : ℕ → ℕ → String → ℕ → Option (List OhlcvBar)
  -- `Date.parse`, none where it is NaN, and `toISOString`
  pub date_parse : String → Option ℕ
  pub to_iso_string : ℕ → String
  -- `text.trim() !== ''`
  pub is_blank : String → Bool
  pub readers : Readers
  pub arithmetic : Arithmetic

pub record VetoLedger : Type 0 where
  pub external : VetoExternal
  pub calls_made : ℕ
  pub decisions : List VetoDecisionRow
  pub kv : Kv
  pub backfill_running : Bool

abbrev pub Work : Type 0 → Type 0
Work = Exec VetoLedger

-- a call of the database, which may fail
unfoldable pub store_call : Work (Unit {0})
store_call w = (
  if w.external.store_works w.calls_made then ok tt else err database,
  record w { calls_made = suc w.calls_made },
)

-- a question to the outside
unfoldable pub ask : {A : Type 0} → (VetoExternal → ℕ → A) → Work A
ask f w = (ok (f w.external w.calls_made), record w { calls_made = suc w.calls_made })

-- `vetoDecision.findMany({ where })`
unfoldable pub find_decisions : (VetoDecisionRow → Bool) → Work (List VetoDecisionRow)
find_decisions matches = store_call >> gets (λ w. select matches w.decisions)

-- `vetoDecision.update({ where: { id } })`
unfoldable pub update_decision : ℕ → (VetoDecisionRow → VetoDecisionRow) → Work (Unit {0})
update_decision id f = do
  store_call
  rows ← gets (λ w. w.decisions)
  if some_of (λ r. r.id == id) rows
      then modify (λ w. record w { decisions = update_where (λ r. r.id == id) f rows })
      else raise record_not_found

-- `KvService.get`
unfoldable pub read_kv : String → Work (Option String)
read_kv k = store_call >> gets (λ w. kv_get k w.kv)
