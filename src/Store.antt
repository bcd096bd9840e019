-- ===== src/Store.antt =====
-- The database tables of the real-money side (apps/api/prisma/schema.prisma and the migrations
-- 0016 and 0017), the process state beside them and the calls that leave the process.
pub mod Rows
pub mod Index
pub mod World
pub mod Calls
