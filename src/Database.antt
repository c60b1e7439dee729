-- ===== src/Database.antt =====
-- The PostgreSQL database behind Prisma: its tables, the exceptions and the transaction monad.
pub mod Exceptions
pub mod Schema
pub mod Table
pub mod Tx
pub mod Frame
pub mod Sorting
