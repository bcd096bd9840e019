-- ===== src/Execution.antt =====
-- apps/api/src/execution/: the computation, shared by the paper account and by pretests, that lets an
-- entry through the kernel's risk gate and applies its fill to the account.
pub mod Account
pub mod Gate
pub mod Fill
pub mod Entry
pub mod Closing
pub mod Limits
pub mod Peak
