-- ===== src/Database.antt =====
-- internal/infrastructure/persistence/mysql: the rows of migrations/*.sql and models.go, the
-- meaning of the SQL statements that the adapters send, and transactions.
pub mod Table
pub mod Rows
pub mod Tx
pub mod Log
