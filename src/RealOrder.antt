-- ===== src/RealOrder.antt =====
-- apps/api/src/real-order/real-order.service.ts: submission of real orders and recovery of those
-- whose fate is unknown.
pub mod Submit
pub mod Recover
pub mod Keeps
pub mod Safety
pub mod Guards
pub mod Recovery
pub mod Once
pub mod Single
