-- ===== src/Common/Halt.antt =====
-- apps/api/src/common/real-execution-halt.util.ts: the global kill-switch for new real-money
-- entries, held in two keys of the key-value table.
use open_neotrader.Base.{String, ◌≡◌, Bool, true, false, Option, none, if◌then◌else◌}
use open_neotrader.Exec.{pure, gets, ◌>>=◌, ◌>>◌}
use open_neotrader.Common.Kv.{kv_get, kv_bool}
use open_neotrader.Store.World.{World, Action, Done}
use open_neotrader.Store.Calls.{kv_read, kv_write, kv_erase}

abbrev pub halted_key : String
halted_key = "real_execution.halted"

abbrev pub halt_reason_key : String
halt_reason_key = "real_execution.halt_reason"

-- `isRealExecutionHalted`
unfoldable pub is_real_execution_halted : Action Bool
is_real_execution_halted = do
  readers ← gets (λ w. w.external.readers)
  raw ← kv_read halted_key
  pure (kv_bool readers raw false)

-- `haltRealExecution`
unfoldable pub halt_real_execution : String → Action Done
halt_real_execution reason = do kv_write halted_key "true"; kv_write halt_reason_key reason

-- `clearRealExecutionHalt`
unfoldable pub clear_real_execution_halt : Action Done
clear_real_execution_halt = do kv_write halted_key "false"; kv_erase halt_reason_key

pub record HaltStatus : Type 0 where
  pub halted : Bool
  pub reason : Option String

-- `getRealExecutionHaltStatus`
unfoldable pub get_real_execution_halt_status : Action HaltStatus
get_real_execution_halt_status = do
  readers ← gets (λ w. w.external.readers)
  raw_halted ← kv_read halted_key
  raw_reason ← kv_read halt_reason_key
  let halted : Bool = kv_bool readers raw_halted false
  pure (record { halted = halted; reason = if halted then raw_reason else none })

-- The table says that real execution is halted.
abbrev pub IsHalted : World → Type 0
IsHalted w = kv_bool w.external.readers (kv_get halted_key w.db.kv) false ≡ true
