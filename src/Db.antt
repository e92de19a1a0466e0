-- ===== src/Db.antt =====
-- internal/db: the tables and the statements over them.
pub mod Types
pub mod Sql
pub mod Keyset
pub mod Actions
pub mod Transactions
pub mod Supernodes
pub mod Stats
