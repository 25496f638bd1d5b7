-- ===== src/ProcessingTx.antt =====
-- internal/infrastructure/persistence/mysql/processing_tx.go. Each transaction is a body, which
-- ends in a commit or in a return behind a rollback, and its run on a database.
pub mod Claim
pub mod Save
pub mod Complete
pub mod Fail
pub mod Reset
pub mod Integrity
