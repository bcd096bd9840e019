-- ===== src/Reconciliation/Portfolio.antt =====
-- The broker's positions in real-broker-reconciliation.service.ts.
pub mod Sync
pub mod Adopt
pub mod Keeps
pub mod Drift
pub mod Adoption
