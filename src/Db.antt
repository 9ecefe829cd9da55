-- ===== src/Db.antt =====
-- The Postgres schema that the program keeps its state in, and the transactions over it.
pub mod Tables
pub mod Tx
pub mod Chain
