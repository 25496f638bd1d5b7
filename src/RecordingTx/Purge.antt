-- ===== src/RecordingTx/Purge.antt =====
-- `PurgeRecording` of recording_tx.go.
pub mod Laws
use recording.Prelude.{String, Bool, same, Result}
use recording.Database.Rows.{RecordingRow, TaskRow, EventRow, Db}
use recording.Database.Tx.{
  Env, Tx, ◌>>=◌, ◌>>◌, commit, delete_event_rows, delete_task_rows, delete_recording_rows,
  transact,
}
use recording.Ports.{TxError}

unfoldable pub purge_body : Env → String → Tx (Unit {0}) (Unit {0})
purge_body env recording_id = do
  delete_event_rows env (λ e. same e.recording_id recording_id)
  delete_task_rows env (λ t. same t.recording_id recording_id)
  delete_recording_rows env (λ r. same r.id recording_id)
  commit tt

unfoldable pub purge_recording : Env → String → Db → Result TxError (Unit {0}) × Db
unfolding purge_body
purge_recording env recording_id = transact env (purge_body env recording_id)
