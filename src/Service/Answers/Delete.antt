-- ===== src/Service/Answers/Delete.antt =====
-- The codes of a deletion.
use recording.Prelude.{
  ℕ, String, Bool, true, false, List, Option, none, some, arith, Result, ok, err,
}
use recording.ErrorCode.{http_status}
use recording.Database.Rows.{Db}
use recording.Database.Tx.{Env}
use recording.FileStore.{StoreError, Disk, delete_file}
use recording.Ports.{TxError, DeletingCleanup}
use recording.RecordingTx.MarkDeleting.{mark_deleting}
use recording.RecordingTx.Purge.{purge_recording}
use recording.Query.{get_deleting}
use recording.Service.{World}
use recording.Service.Answers.{IsAnswered}
use recording.Service.Delete.{
  after_purge, after_delete, finalize, cancel, after_query, after_mark, delete,
}

after_purge-IsAnswered :
    (env : Env) (row : DeletingCleanup) (w : World) (r : Result TxError (Unit {0}) × Db)
    → IsAnswered (after_purge env row w r).0
unfolding http_status
after_purge-IsAnswered env row w (ok u, db) = tt
after_purge-IsAnswered env row w (err e, db) = omega arith

after_delete-IsAnswered :
    (env : Env) (row : DeletingCleanup) (w : World) (r : Result StoreError (Unit {0}) × List String)
    → IsAnswered (after_delete env row w r).0
unfolding http_status
after_delete-IsAnswered env row w (err e, files) = omega arith
after_delete-IsAnswered env row w (ok u, files) =
    after_purge-IsAnswered env row (record w { files = files })
      (purge_recording env row.recording_id w.db)

after_query-IsAnswered :
    (env : Env) (disk : Disk) (w : World) (r : Result TxError (Option DeletingCleanup))
    → IsAnswered (after_query env disk w r).0
unfolding http_status finalize
after_query-IsAnswered env disk w (err e) = omega arith
after_query-IsAnswered env disk w (ok none) = tt
after_query-IsAnswered env disk w (ok (some row)) =
    after_delete-IsAnswered env row (cancel row w)
      (delete_file disk row.storage_path (cancel row w).files)

after_mark-IsAnswered :
    (envs : ℕ → Env) (disk : Disk) (id : String) (w : World)
    (r : Result TxError (String × Bool) × Db)
    → IsAnswered (after_mark envs disk id w r).0
unfolding http_status
after_mark-IsAnswered envs disk id w (err e, db) = omega arith
after_mark-IsAnswered envs disk id w (ok (task_id, false), db) = omega arith
after_mark-IsAnswered envs disk id w (ok (task_id, true), db) =
    after_query-IsAnswered (envs 2) disk (record w { db = db }) (get_deleting (envs 1) id db)

pub delete-IsAnswered :
    (envs : ℕ → Env) (disk : Disk) (id : String) (w : World) → IsAnswered (delete envs disk id w).0
unfolding delete
delete-IsAnswered envs disk id w =
    after_mark-IsAnswered envs disk id w (mark_deleting (envs 0) id w.db)
