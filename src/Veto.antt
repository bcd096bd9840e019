-- ===== src/Veto.antt =====
-- apps/api/src/veto-analyzer/veto-analyzer.service.ts: what the vetoed signals would have come to, and
-- the reports that sum it up.
pub mod State
pub mod Mark
pub mod Backfill
pub mod Report
pub mod Plugins
pub mod Later
pub mod Fetch
pub mod Ledger
pub mod Tally
pub mod Sums
pub mod Attribution
