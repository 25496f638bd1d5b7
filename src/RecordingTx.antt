-- ===== src/RecordingTx.antt =====
-- internal/infrastructure/persistence/mysql/recording_tx.go.
pub mod HashLock
pub mod Create
pub mod Retry
pub mod MarkDeleting
pub mod Purge
use recording.Prelude.{
  String, ℕ, Bool, List, [], ◌∷◌, Option, none, some, if◌then◌else◌, same, any, find?, Result, err,
}
use recording.Database.Rows.{HashLockRow, Db}
use recording.Database.Tx.{
  Env, Tx, ◌>>=◌, ◌>>◌, Stmt, ensure_hash_lock, lock_hash, attempt, found_or,
}
use recording.Ports.{TxError, DriverError, driver_failed, other}

abbrev pub has_hash : String → HashLockRow → Bool
has_hash h l = same l.content_hash h

-- INSERT IGNORE.
unfoldable pub with_hash_lock : String → ℕ → Db → Db
with_hash_lock hash created_at db = if any (has_hash hash) db.hash_locks then db else record db {
  hash_locks = record { content_hash = hash; created_at = created_at } ∷ db.hash_locks;
}

-- `ensureHashLock`, a statement of its own before `rest`.
abbrev pub ensuring_hash_lock :
    {A : Type 0} → Env → String → ℕ → (Db → Result TxError A × Db) → Db → Result TxError A × Db
ensuring_hash_lock env hash created_at rest db = elim (env.fails ensure_hash_lock) [
  | none ↦ rest (with_hash_lock hash created_at db)
  | some e ↦ (err (driver_failed e), db)
]

-- SELECT … FROM recording_hash_locks WHERE content_hash = ? FOR UPDATE; a missing row is an error.
abbrev pub take_hash_lock : {R : Type 0} → Env → String → Tx R HashLockRow
take_hash_lock env hash = do
  attempt env lock_hash
  λ db. found_or (find? (has_hash hash) db.hash_locks) (err (driver_failed other)) db
