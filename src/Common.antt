-- ===== src/Common.antt =====
-- Shared utilities of the API (apps/api/src/common): the broker status vocabulary, readings of
-- the key-value table, and the global kill-switch for real money.
pub mod BrokerStatus
pub mod Kv
pub mod Halt
