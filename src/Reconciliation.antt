-- ===== src/Reconciliation.antt =====
-- apps/api/src/real-reconciliation/real-broker-reconciliation.service.ts: the service that brings the
-- ledger in line with the broker.
pub mod Polling
pub mod Keeps
pub mod Ledger
pub mod Stale
pub mod Apply
pub mod Sweep
pub mod Portfolio
pub mod Tick
