-- ===== src/Service/Delete.antt =====
-- `DeleteService` of internal/application/recording/delete.go.
pub mod Laws
use recording.Prelude.{
  ℕ, suc, ◌+◌, String, Bool, true, false, List, [], ◌∷◌, Option, none, some, same, Result, ok, err,
  if◌then◌else◌,
}
use recording.Domain.Status.{TaskStatus}
use recording.Domain.Event.{TaskEvent, zero_event, task_deleted, info}
use recording.ErrorCode.{
  ErrorCode, database_unavailable, recording_not_found, recording_delete_pending,
}
use recording.Database.Rows.{Db}
use recording.Database.Tx.{Env}
use recording.Ports.{TxError, DeletingCleanup}
use recording.FileStore.{StoreError, Disk, delete_file}
use recording.RecordingTx.MarkDeleting.{mark_deleting}
use recording.RecordingTx.Purge.{purge_recording}
use recording.Query.{get_deleting, list_deleting}
use recording.Service.{World}

abbrev pub Done : Type 0
Done = Result ErrorCode (Unit {0}) × World

abbrev pub deleted_event : Env → DeletingCleanup → TaskEvent
deleted_event env row = record zero_event {
  event_id = env.new_id 0;
  task_id = row.task_id;
  recording_id = row.recording_id;
  event_seq = row.event_seq + 1;
  attempt = row.attempt;
  kind = task_deleted;
  occurred_at = env.now;
  level = info;
  from_status = row.status;
  to_status = row.status;
  instance_id = env.instance_id;
}

abbrev pub cancel : DeletingCleanup → World → World
cancel row w = if same row.task_id "" then w else record w { cancelled = row.task_id ∷ w.cancelled }

abbrev pub log_deleted : Env → DeletingCleanup → World → World
log_deleted env row w =
    if same row.task_id "" then w else record w { mirrored = deleted_event env row ∷ w.mirrored }

abbrev pub after_purge : Env → DeletingCleanup → World → Result TxError (Unit {0}) × Db → Done
after_purge env row w (err e, db) = (err recording_delete_pending, record w { db = db })
after_purge env row w (ok _, db) = (ok tt, log_deleted env row (record w { db = db }))

abbrev pub after_delete :
    Env → DeletingCleanup → World → Result StoreError (Unit {0}) × List String → Done
after_delete env row w (err e, files) = (err recording_delete_pending, record w { files = files })
after_delete env row w (ok _, files) =
    after_purge env row (record w { files = files }) (purge_recording env row.recording_id w.db)

unfoldable pub finalize : Env → Disk → DeletingCleanup → World → Done
finalize env disk row w =
    let w' = cancel row w in after_delete env row w' (delete_file disk row.storage_path w'.files)

abbrev pub after_query : Env → Disk → World → Result TxError (Option DeletingCleanup) → Done
after_query env disk w (err e) = (err database_unavailable, w)
after_query env disk w (ok none) = (ok tt, w)
after_query env disk w (ok (some row)) = finalize env disk row w

-- The transaction's answer is (task id, marked).
abbrev pub after_mark :
    (ℕ → Env) → Disk → String → World → Result TxError (String × Bool) × Db → Done
after_mark envs disk recording_id w (err e, db) = (err database_unavailable, record w { db = db })
after_mark envs disk recording_id w (ok (task_id, false), db) =
    (err recording_not_found, record w { db = db })
after_mark envs disk recording_id w (ok (task_id, true), db) =
    after_query (envs 2) disk (record w { db = db }) (get_deleting (envs 1) recording_id db)

-- `envs` 0, 1 and 2 answer the mark, the query, and the clean-up.
unfoldable pub delete : (ℕ → Env) → Disk → String → World → Done
unfolding finalize
delete envs disk recording_id w =
    after_mark envs disk recording_id w (mark_deleting (envs 0) recording_id w.db)

-- The loop over the rows: a failure of one does not stop the others.
unfoldable pub finalize_all : (ℕ → Env) → (ℕ → Disk) → ℕ → List DeletingCleanup → World → World
unfolding finalize
finalize_all envs disks i [] w = w
finalize_all envs disks i (row ∷ rows) w =
    finalize_all envs disks (suc i) rows (finalize (envs i) (disks i) row w).1

abbrev pub after_scan :
    (ℕ → Env) → (ℕ → Disk) → Result TxError (List DeletingCleanup) → World → World
after_scan envs disks (err e) w = w
after_scan envs disks (ok rows) w = finalize_all envs disks 1 rows w

unfoldable pub cleanup_pending : (ℕ → Env) → (ℕ → Disk) → World → World
unfolding finalize_all
cleanup_pending envs disks w = after_scan envs disks (list_deleting (envs 0) w.db) w
