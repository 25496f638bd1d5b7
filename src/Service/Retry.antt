-- ===== src/Service/Retry.antt =====
-- `RetryService.Retry` of internal/application/recording/retry.go.
use recording.Prelude.{ℕ, ◌+◌, String, Result, ok, err}
use recording.Domain.Status.{TaskStatus, pending}
use recording.ErrorCode.{ErrorCode, database_unavailable}
use recording.Database.Rows.{Db}
use recording.Database.Tx.{Env}
use recording.Ports.{TxError, app}
use recording.RecordingTx.Retry.{retry_task}
use recording.Service.{World}

pub record RetryResult : Type 0 where
  pub task_id : String
  pub status : TaskStatus
  pub attempt : ℕ

-- An error that carries a code is handed on; the others are the database's.
abbrev pub retry_error : TxError → ErrorCode
retry_error (app code) = code
retry_error _ = database_unavailable

abbrev pub after_retry :
    String → World → Result TxError ℕ × Db → Result ErrorCode RetryResult × World
after_retry task_id w (err e, db) = (err (retry_error e), record w { db = db })
after_retry task_id w (ok attempt, db) = (
  ok (record { task_id = task_id; status = pending; attempt = attempt }),
  record w { db = db; notified = w.notified + 1 },
)

unfoldable pub retry : Env → String → World → Result ErrorCode RetryResult × World
retry env task_id w = after_retry task_id w (retry_task env task_id w.db)
