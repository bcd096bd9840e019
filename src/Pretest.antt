-- ===== src/Pretest.antt =====
-- apps/api/src/pretest/pretest.service.ts: the simulated portfolios, the gate that a portfolio must pass
-- before its plugins go live, and the promotion itself.
pub mod State
pub mod Book
pub mod Fill
pub mod Rebalance
pub mod Marks
pub mod Floor
pub mod Gate
pub mod Promote
pub mod Reputation
pub mod Cycle
pub mod Reads
pub mod Promotion
pub mod Ceiling
pub mod Mirror
pub mod Flat
pub mod Peaks
pub mod Holdings
pub mod Counting
pub mod Untouched
pub mod Sound
pub mod Cycles
