-- ===== src/ProcessingTx/Integrity.antt =====
-- `InspectIntegrity` and `ListStoragePaths` of processing_tx.go: both only read.
use recording.Prelude.{
  String, ◌&&◌, not, List, [], Option, none, some, Result, ok, err, keep, any, map, same,
}
use recording.Database.Rows.{RecordingRow, TaskRow, Db}
use recording.Database.Tx.{Env, inspect_tasks, inspect_recordings, list_paths, is_some}
use recording.Ports.{DriverError, TxError, data_inconsistent, driver_failed}

-- tasks LEFT JOIN recordings … WHERE r.id IS NULL.
abbrev pub orphans : Db → List TaskRow
orphans db =
    keep (λ t. not (any (λ (r : RecordingRow). same r.id t.recording_id) db.recordings)) db.tasks

-- recordings LEFT JOIN tasks … WHERE r.deleting_at IS NULL AND t.id IS NULL.
abbrev pub missing : Db → List RecordingRow
missing db =
    keep
      (λ r.
        not (is_some r.deleting_at)
        && not (any (λ (t : TaskRow). same t.recording_id r.id) db.tasks))
      db.recordings

abbrev pub verdict : List TaskRow → List RecordingRow → Result TxError (Unit {0})
verdict [] [] = ok tt
verdict _ _ = err data_inconsistent

-- A query of the server: its error, or what is made of its rows.
abbrev pub queried : {A : Type 0} → Option DriverError → Result TxError A → Result TxError A
queried none r = r
queried (some e) r = err (driver_failed e)

unfoldable pub inspect_integrity : Env → Db → Result TxError (Unit {0})
inspect_integrity env db =
    queried (env.fails inspect_tasks)
      (queried (env.fails inspect_recordings) (verdict (orphans db) (missing db)))

unfoldable pub list_storage_paths : Env → Db → Result TxError (List String)
list_storage_paths env db =
    queried (env.fails list_paths) (ok (map (λ (r : RecordingRow). r.storage_path) db.recordings))
