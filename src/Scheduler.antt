-- ===== src/Scheduler.antt =====
-- apps/api/src/scheduler/cycle-scheduler.service.ts: the service that starts the agents' cycles.
pub mod State
pub mod Cycle
pub mod Keeps
pub mod Reasons
pub mod Starts
pub mod Safety
pub mod Bounds
